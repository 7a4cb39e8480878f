-- ===== src/Mcp/Calls/Steps.antt =====
-- Every step of the walk keeps the graph.
use soft_ue_index.Base.{
  ℕ, suc, ◌+◌, ◌≤◌, ◌≡◌, refl, Bool, true, false, not, Option, Option-cases, if_intro, List, [],
  ◌∷◌, ◌++◌, length-append, All-append, arith, inl, inr, sym, ◌∙◌, ltb,
}
use soft_ue_index.Base.Int.{ℤ}
use soft_ue_index.Base.{if◌then◌else◌}
use soft_ue_index.Base.Text.{Bytes, eqb_refl, one_of}
use soft_ue_index.Mcp.Calls.{
  CallItem, Call, CallNode, CallEdge, Walk, items_of, truncate, append_node, call_key,
  add_call_node, push_next, add_edge, cost_of, link, add_calls,
}
use soft_ue_index.Mcp.Calls.Graph.{
  ids, Joins, IsWalk, All-weaken, ids-append, one_of-append, one_of-append_true, Distinct-append,
}

-- What was seen stays seen.
abbrev pub Grows : Walk → Walk → Type 0
Grows s s' = (k : Bytes) → one_of k s.seen ≡ true → one_of k s'.seen ≡ true

pub Grows-refl : (s : Walk) → Grows s s
Grows-refl s = λ k h. h

pub Grows-trans : (a b c : Walk) → Grows a b → Grows b c → Grows a c
Grows-trans a b c f g = λ k h. g k (f k h)

Joins-append : (ks ls : List Bytes) (e : CallEdge) → Joins ks e → Joins (ks ++ ls) e
Joins-append ks ls e h = (one_of-append_true e.from ks ls h.0, one_of-append_true e.to ks ls h.1)

module _ (show : ℤ → Bytes) (allowed : CallItem → Bool) (max : ℕ) where
  pub truncate-IsWalk :
      (s : Walk) → IsWalk show allowed max s → IsWalk show allowed max (truncate s)
  truncate-IsWalk s h = record {
    graph = record {
      distinct = h.graph.distinct;
      keyed = h.graph.keyed;
      inside = h.graph.inside;
      few = h.graph.few;
      joined = h.graph.joined;
      rooted = h.graph.rooted;
    };
    same_keys = h.same_keys;
    next_known = h.next_known;
  }

  append_node-IsWalk :
      (item : CallItem) (s : Walk)
      → IsWalk show allowed max s
      → one_of (call_key show item) s.seen ≡ false
      → allowed item ≡ true
      → suc (items_of s.result) ≤ max
      → IsWalk show allowed max (append_node (call_key show item) item s)
  unfolding one_of
  append_node-IsWalk item s h new inside room =
      let k = call_key show item in
      let node : CallNode = record { id = k; item = item } in
      let after = ids-append s.result.nodes (node ∷ []) in
      record {
        graph = record {
          distinct =
              rw after (
                Distinct-append (ids s.result.nodes) k (sym (h.same_keys k) ∙ new)
                  h.graph.distinct);
          keyed =
              All-append (λ v. v.id ≡ call_key show v.item) s.result.nodes (node ∷ []) h.graph.keyed
                (refl, tt);
          inside =
              All-append (λ v. allowed v.item ≡ true) s.result.nodes (node ∷ []) h.graph.inside
                (inside, tt);
          few = omega (arith, length-append s.result.nodes (node ∷ []));
          joined = rw after (
              All-weaken (Joins (ids s.result.nodes)) (Joins (ids s.result.nodes ++ (k ∷ [])))
                s.result.edges (λ e j. Joins-append (ids s.result.nodes) (k ∷ []) e j)
                h.graph.joined);
          rooted = rw after (
              All-weaken (λ r. one_of r (ids s.result.nodes) ≡ true)
                (λ r. one_of r (ids s.result.nodes ++ (k ∷ [])) ≡ true) s.result.roots
                (λ r j. one_of-append_true r (ids s.result.nodes) (k ∷ []) j) h.graph.rooted);
        };
        same_keys = λ q.
            rw (after, one_of-append q (ids s.result.nodes) (k ∷ []), sym (h.same_keys q))
              (ground arith);
        next_known =
            All-weaken (λ v. one_of (call_key show v) s.seen ≡ true)
              (λ v. one_of (call_key show v) (k ∷ s.seen) ≡ true) s.next (λ v j. ground arith)
              h.next_known;
      }

  -- What adding a node gives.
  pub record Added (item : CallItem) (s : Walk) (r : Bool × Walk) : Type 0 where
    pub walk : IsWalk show allowed max r.1
    pub grows : Grows s r.1
    pub there : one_of (call_key show item) r.1.seen ≡ true
    pub count :
        items_of r.1.result + 1 ≡ items_of s.result + cost_of show max (call_key show item) s
    pub edges : r.1.result.edges ≡ s.result.edges

  pub add_call_node-Added :
      (item : CallItem) (s : Walk)
      → IsWalk show allowed max s
      → allowed item ≡ true
      → items_of s.result + cost_of show max (call_key show item) s ≤ suc max
      → Added item s (add_call_node (call_key show item) item s)
  unfolding add_call_node one_of
  add_call_node-Added item s h inside room =
      if_intro (Added item s) (one_of (call_key show item) s.seen) _ _
        (λ old. record {
          walk = h;
          grows = λ k j. j;
          there = old;
          count = ground arith;
          edges = refl;
        })
        (λ new. record {
          walk = append_node-IsWalk item s h new inside (ground arith);
          grows = λ k j. ground arith;
          there = ground (arith, eqb_refl (call_key show item));
          count = ground (
            arith,
            length-append s.result.nodes (record { id = call_key show item; item = item } ∷ []),
          );
          edges = refl;
        })

  add_edge-IsWalk :
      (from to : Bytes) (added : Bool) (s : Walk)
      → IsWalk show allowed max s
      → one_of from s.seen ≡ true
      → one_of to s.seen ≡ true
      → suc (items_of s.result) ≤ max
      → IsWalk show allowed max (add_edge show max from to (added, s)).1
  add_edge-IsWalk from to added s h f t room =
      let edge : CallEdge = record { from = from; to = to } in
      record {
        graph = record {
          distinct = h.graph.distinct;
          keyed = h.graph.keyed;
          inside = h.graph.inside;
          few = omega (arith, length-append s.result.edges (edge ∷ []));
          joined =
              All-append (Joins (ids s.result.nodes)) s.result.edges (edge ∷ []) h.graph.joined
                ((sym (h.same_keys from) ∙ f, sym (h.same_keys to) ∙ t), tt);
          rooted = h.graph.rooted;
        };
        same_keys = h.same_keys;
        next_known = h.next_known;
      }

  -- What a step of the walk keeps.
  pub record Kept (s s' : Walk) : Type 0 where
    pub walk : IsWalk show allowed max s'
    pub grows : Grows s s'

  push_next-Kept :
      (to : CallItem) (s : Walk) (r : Bool × Walk)
      → Kept s r.1
      → one_of (call_key show to) r.1.seen ≡ true
      → Kept s (push_next show max to r)
  push_next-Kept to s (false, s') h t = h
  push_next-Kept to s (true, s') h t = record {
    walk = record {
      graph = h.walk.graph;
      same_keys = h.walk.same_keys;
      next_known =
          All-append (λ v. one_of (call_key show v) s'.seen ≡ true) s'.next (to ∷ [])
            h.walk.next_known (t, tt);
    };
    grows = h.grows;
  }

  link-Kept :
      (from to : CallItem) (s : Walk)
      → IsWalk show allowed max s
      → one_of (call_key show from) s.seen ≡ true
      → allowed to ≡ true
      → items_of s.result + cost_of show max (call_key show to) s ≤ max
      → Kept s (link show max from to s)
  link-Kept from to s h f inside room =
      let r = add_call_node (call_key show to) to s in
      let a = add_call_node-Added to s h inside (omega arith) in
      push_next-Kept to s (add_edge show max (call_key show from) (call_key show to) r)
        (record {
          walk =
              add_edge-IsWalk (call_key show from) (call_key show to) r.0 r.1 a.walk
                (a.grows (call_key show from) f) a.there (omega (arith, a.count));
          grows = a.grows;
        })
        a.there

  Kept-trans : (a b c : Walk) → Grows a b → Kept b c → Kept a c
  Kept-trans a b c f h = record { walk = h.walk; grows = λ k j. h.grows k (f k j) }

  module _ (target : Call → Option CallItem) (from : CallItem) where
    -- what the rest of the loop makes of one visit
    abbrev Visited : Walk → List Call → Bool × Walk → Type 0
    Visited s rest next =
        Kept s (if next.0 then add_calls show max allowed target from rest next.1 else next.1)

    pub add_calls-Kept :
        (calls : List Call) (s : Walk)
        → IsWalk show allowed max s
        → one_of (call_key show from) s.seen ≡ true
        → Kept s (add_calls show max allowed target from calls s)
    unfolding add_calls
    add_calls-Kept [] s h f = record { walk = h; grows = λ k j. j }
    add_calls-Kept (call ∷ rest) s h f =
        let cut : Kept s (add_calls show max allowed target from rest (truncate s)) =
          Kept-trans s (truncate s) _ (λ k j. j)
            (add_calls-Kept rest (truncate s) (truncate-IsWalk s h) f) in
        elim (Option-cases (target call)) [
          | inl e ↦ rw (e, add_calls) cut
          | inr (to, e) ↦
              rw (e, add_calls)
                (if_intro (Visited s rest) (not (allowed to)) (true, truncate s) _ (λ b. cut)
                  (λ b.
                    if_intro (Visited s rest)
                      (ltb max (items_of s.result + cost_of show max (call_key show to) s)) _ _
                      (λ c. record { walk = truncate-IsWalk s h; grows = λ k j. j })
                      (λ c.
                        let linked = link-Kept from to s h f (ground arith) (ground arith) in
                        Kept-trans s (link show max from to s) _ linked.grows (
                          add_calls-Kept rest (link show max from to s) linked.walk
                            (linked.grows (call_key show from) f)))))
        ]
