-- ===== src/Mcp/Calls/Trimmed.antt =====
-- What trimCallHierarchy takes away leaves a graph.
use soft_ue_index.Base.{
  ℕ, zero, suc, ◌≤◌, ◌≡◌, refl, Bool, true, false, ◌⊎◌, if_intro, List, [], ◌∷◌, length,
  length-take, take, All, All-take, arith, inl, inr, ap, sym, ◌∙◌, ltb,
}
use soft_ue_index.Base.Int.{ℤ}
use soft_ue_index.Base.Text.{Bytes, eqb, one_of}
use soft_ue_index.Base.Result.{Result, ok, err}
use soft_ue_index.Mcp.Search.{ToolError}
use soft_ue_index.Mcp.Calls.{
  CallItem, CallNode, CallEdge, CallResult, call_key, last_id, remove_call_id, without_last,
  drop_nodes, drop_edges, trim_call_hierarchy,
}
use soft_ue_index.Mcp.Calls.Graph.{ids, Distinct, Joins, IsGraph}

one_of-take :
    (k : Bytes) (n : ℕ) (xs : List CallNode)
    → one_of k (ids xs) ≡ false
    → one_of k (ids (take n xs)) ≡ false
unfolding one_of
one_of-take k zero xs h = refl
one_of-take k (suc n) [] h = h
one_of-take k (suc n) (x ∷ xs) h = ground (arith, one_of-take k n xs)

Distinct-take : (n : ℕ) (xs : List CallNode) → Distinct (ids xs) → Distinct (ids (take n xs))
Distinct-take zero xs d = tt
Distinct-take (suc n) [] d = d
Distinct-take (suc n) (x ∷ xs) d = (one_of-take x.id n xs d.0, Distinct-take n xs d.1)

-- a key other than the last one is among the others
one_of-without_last :
    (k : Bytes) (n : ℕ) (xs : List CallNode)
    → length xs ≡ suc n
    → eqb k (last_id xs) ≡ false
    → one_of k (ids xs) ≡ true
    → one_of k (ids (take n xs)) ≡ true
unfolding one_of
one_of-without_last k n [] len other h = absurd (omega arith)
one_of-without_last k zero (x ∷ []) len other h = ground arith
one_of-without_last k zero (x ∷ y ∷ xs) len other h = absurd (omega arith)
one_of-without_last k (suc n) (x ∷ []) len other h = absurd (omega arith)
one_of-without_last k (suc n) (x ∷ y ∷ xs) len other h =
    ground (arith, one_of-without_last k n (y ∷ xs))

remove_call_id-All :
    (k : Bytes) (n : ℕ) (nodes : List CallNode) (roots : List Bytes)
    → k ≡ last_id nodes
    → length nodes ≡ suc n
    → All (λ r. one_of r (ids nodes) ≡ true) roots
    → All (λ r. one_of r (ids (take n nodes)) ≡ true) (remove_call_id k roots)
unfolding remove_call_id
remove_call_id-All k n nodes [] e len h = tt
remove_call_id-All k n nodes (r ∷ roots) e len h =
    let rest = remove_call_id-All k n nodes roots e len h.1 in
    if_intro (All (λ r. one_of r (ids (take n nodes)) ≡ true)) (eqb r k) _ _ (λ b. rest)
      (λ b. (one_of-without_last r n nodes len (ap (λ t. eqb r t) (sym e) ∙ b) h.0, rest))

module _ (show : ℤ → Bytes) (allowed : CallItem → Bool) (max : ℕ) (wire : CallResult → ℕ)
    (limit : ℕ) where
  without_last-IsGraph :
      (n : ℕ) (r : CallResult)
      → length r.nodes ≡ suc n
      → r.edges ≡ []
      → IsGraph show allowed max r
      → IsGraph show allowed max (without_last wire limit n r)
  without_last-IsGraph n r len bare h = record {
    distinct = Distinct-take n r.nodes h.distinct;
    keyed = All-take (λ v. v.id ≡ call_key show v.item) n r.nodes h.keyed;
    inside = All-take (λ v. allowed v.item ≡ true) n r.nodes h.inside;
    few = omega (arith, length-take n r.nodes, h.few);
    joined = rw bare tt;
    rooted = remove_call_id-All (last_id r.nodes) n r.nodes r.roots refl len h.rooted;
  }

  take_edges-IsGraph :
      (n : ℕ) (r : CallResult)
      → IsGraph show allowed max r
      → IsGraph show allowed max (record r { edges = take n r.edges })
  take_edges-IsGraph n r h = record {
    distinct = h.distinct;
    keyed = h.keyed;
    inside = h.inside;
    few = omega (arith, length-take n r.edges, h.few);
    joined = All-take (Joins (ids r.nodes)) n r.edges h.joined;
    rooted = h.rooted;
  }

  marked-IsGraph :
      (r : CallResult)
      → IsGraph show allowed max r
      → IsGraph show allowed max (record r { truncated = true })
  marked-IsGraph r h = record {
    distinct = h.distinct;
    keyed = h.keyed;
    inside = h.inside;
    few = h.few;
    joined = h.joined;
    rooted = h.rooted;
  }

  -- A result that fits.
  pub record Fits (r : CallResult) : Type 0 where
    pub graph : IsGraph show allowed max r
    pub fits : wire r ≤ limit

  -- What an answer is, when it is marked as truncated.
  FitsMarked : CallResult → Type 0
  FitsMarked r = Fits r × (r.truncated ≡ true)

  -- `IfOk P o`: P holds of the value of `o`, if it has one
  abbrev pub IfOk : (CallResult → Type 0) → Result ToolError CallResult → Type 0
  IfOk P (err e) = Unit
  IfOk P (ok r) = P r

  drop_nodes-Fits :
      (n : ℕ) (r : CallResult)
      → length r.nodes ≡ n
      → r.edges ≡ []
      → r.truncated ≡ true
      → IsGraph show allowed max r
      → IfOk FitsMarked (drop_nodes wire limit n r)
  unfolding drop_nodes FitsMarked
  drop_nodes-Fits zero r len bare t h =
      if_intro (IfOk FitsMarked) (ltb limit (wire r)) _ _ (λ b. tt)
        (λ b. (record { graph = h; fits = ground arith }, t))
  drop_nodes-Fits (suc n) r len bare t h =
      let shorter = without_last-IsGraph n r len bare h in
      if_intro (IfOk FitsMarked) (ltb limit (wire (without_last wire limit n r))) _ _
        (λ b.
          drop_nodes-Fits n (without_last wire limit n r) (omega (arith, length-take n r.nodes))
            bare t shorter)
        (λ b. (record { graph = shorter; fits = ground arith }, t))

  drop_edges-Fits :
      (n : ℕ) (r : CallResult)
      → length r.edges ≡ n
      → r.truncated ≡ true
      → IsGraph show allowed max r
      → IfOk FitsMarked (drop_edges wire limit n r)
  unfolding drop_edges FitsMarked
  drop_edges-Fits zero r len t h = drop_nodes-Fits (length r.nodes) r refl (empty r.edges len) t h
    where
      empty : (xs : List CallEdge) → length xs ≡ 0 → xs ≡ []
      empty [] e = refl
      empty (x ∷ xs) e = absurd (omega arith)
  drop_edges-Fits (suc n) r len t h =
      let shorter = take_edges-IsGraph n r h in
      if_intro (IfOk FitsMarked) (ltb limit (wire (record r { edges = take n r.edges }))) _ _
        (λ b.
          drop_edges-Fits n (record r { edges = take n r.edges })
            (omega (arith, length-take n r.edges)) t shorter)
        (λ b. (record { graph = shorter; fits = ground arith }, t))

  -- An answer of trimCallHierarchy is a graph that fits; it is the input, or marked as truncated.
  pub trim_call_hierarchy-Fits :
      (r : CallResult)
      → IsGraph show allowed max r
      → IfOk (λ r'. Fits r' × ((r' ≡ r) ⊎ (r'.truncated ≡ true))) (trim_call_hierarchy wire limit r)
  unfolding trim_call_hierarchy FitsMarked
  trim_call_hierarchy-Fits r h =
      if_intro (IfOk (λ r'. Fits r' × ((r' ≡ r) ⊎ (r'.truncated ≡ true)))) (ltb limit (wire r)) _ _
        (λ b. weaker (drop_edges wire limit (length r.edges) (record r { truncated = true })) (
          drop_edges-Fits (length r.edges) (record r { truncated = true }) refl refl
            (marked-IsGraph r h)))
        (λ b. (record { graph = h; fits = ground arith }, inl refl))
    where
      weaker :
          (o : Result ToolError CallResult)
          → IfOk FitsMarked o
          → IfOk (λ r'. Fits r' × ((r' ≡ r) ⊎ (r'.truncated ≡ true))) o
      weaker (err e) k = tt
      weaker (ok r') k = (k.0, inr k.1)
