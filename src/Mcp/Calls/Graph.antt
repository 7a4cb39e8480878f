-- ===== src/Mcp/Calls/Graph.antt =====
-- The graph that the walk over the calls builds: distinct nodes, and edges and roots among them.
use soft_ue_index.Base.{
  ℕ, ◌≤◌, ◌≡◌, refl, Bool, true, false, ◌||◌, List, [], ◌∷◌, ◌++◌, All, arith, ap,
}
use soft_ue_index.Base.Int.{ℤ}
use soft_ue_index.Base.Text.{Bytes, eqb, eqb_iff, eqb_refl, one_of}
use soft_ue_index.Mcp.Calls.{CallItem, CallNode, CallEdge, CallResult, Walk, items_of, call_key}

abbrev pub ids : List CallNode → List Bytes
ids [] = []
ids (v ∷ rest) = v.id ∷ ids rest

abbrev pub Distinct : List Bytes → Type 0
Distinct [] = Unit
Distinct (k ∷ ks) = (one_of k ks ≡ false) × Distinct ks

-- an edge whose ends are among the keys
abbrev pub Joins : List Bytes → CallEdge → Type 0
Joins ks e = (one_of e.from ks ≡ true) × (one_of e.to ks ≡ true)

-- What a call hierarchy promises: each node once, under the key of its item, each allowed, no more nodes and edges than
-- `max`, and edges and roots only among the nodes.
pub record IsGraph (show : ℤ → Bytes) (allowed : CallItem → Bool) (max : ℕ) (r : CallResult)
    : Type 0 where
  pub distinct : Distinct (ids r.nodes)
  pub keyed : All (λ v. v.id ≡ call_key show v.item) r.nodes
  pub inside : All (λ v. allowed v.item ≡ true) r.nodes
  pub few : items_of r ≤ max
  pub joined : All (Joins (ids r.nodes)) r.edges
  pub rooted : All (λ k. one_of k (ids r.nodes) ≡ true) r.roots

-- The invariant of the walk.
pub record IsWalk (show : ℤ → Bytes) (allowed : CallItem → Bool) (max : ℕ) (s : Walk) : Type 0 where
  pub graph : IsGraph show allowed max s.result
  pub same_keys : (k : Bytes) → one_of k s.seen ≡ one_of k (ids s.result.nodes)
  pub next_known : All (λ v. one_of (call_key show v) s.seen ≡ true) s.next

pub All-weaken {ℓ κ} :
    {A : Type ℓ} (P Q : A → Type κ) (xs : List A) → ((x : A) → P x → Q x) → All P xs → All Q xs
All-weaken P Q [] f h = tt
All-weaken P Q (x ∷ xs) f h = (f x h.0, All-weaken P Q xs f h.1)

pub ids-append : (xs ys : List CallNode) → ids (xs ++ ys) ≡ ids xs ++ ids ys
ids-append [] ys = refl
ids-append (v ∷ xs) ys = ap (λ t. v.id ∷ t) (ids-append xs ys)

pub one_of-append :
    (k : Bytes) (xs ys : List Bytes) → one_of k (xs ++ ys) ≡ (one_of k xs || one_of k ys)
unfolding one_of
one_of-append k [] ys = refl
one_of-append k (x ∷ xs) ys = ground (arith, one_of-append k xs ys)

pub one_of-append_true :
    (k : Bytes) (xs ys : List Bytes) → one_of k xs ≡ true → one_of k (xs ++ ys) ≡ true
one_of-append_true k xs ys h = ground (arith, one_of-append k xs ys)

pub one_of-last : (k : Bytes) (xs : List Bytes) → one_of k (xs ++ (k ∷ [])) ≡ true
unfolding one_of
one_of-last k xs = ground (arith, one_of-append k xs (k ∷ []), eqb_refl k)

eqb_comm : (s t : Bytes) → eqb s t ≡ eqb t s
eqb_comm s t = ground (arith, eqb_iff s t, eqb_iff t s)

pub Distinct-append :
    (xs : List Bytes) (k : Bytes) → one_of k xs ≡ false → Distinct xs → Distinct (xs ++ (k ∷ []))
unfolding one_of
Distinct-append [] k h d = (refl, tt)
Distinct-append (x ∷ xs) k h d = (
  ground (arith, one_of-append x xs (k ∷ []), eqb_comm x k),
  Distinct-append xs k (ground arith) d.1,
)
