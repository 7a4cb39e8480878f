-- ===== src/Mcp/Calls/Roots.antt =====
-- The loop over the roots keeps the graph.
use soft_ue_index.Base.{
  ℕ, ◌≡◌, refl, Bool, true, false, if_intro, List, [], ◌∷◌, length, All, All-append, arith, ap, sym,
  ◌∙◌, leb,
}
use soft_ue_index.Base.Int.{ℤ}
use soft_ue_index.Base.Text.{Bytes, one_of}
use soft_ue_index.Mcp.Calls.{CallItem, Walk, call_key, add_call_node, add_root, add_roots}
use soft_ue_index.Mcp.Calls.Graph.{ids, IsWalk}
use soft_ue_index.Mcp.Calls.Steps.{add_call_node-Added, truncate-IsWalk}

module _ (show : ℤ → Bytes) (allowed : CallItem → Bool) (max : ℕ) where
  add_root-IsWalk :
      (id : Bytes) (r : Bool × Walk)
      → IsWalk show allowed max r.1
      → one_of id r.1.seen ≡ true
      → IsWalk show allowed max (add_root id r)
  add_root-IsWalk id (false, s) h t = h
  add_root-IsWalk id (true, s) h t = record {
    graph = record {
      distinct = h.graph.distinct;
      keyed = h.graph.keyed;
      inside = h.graph.inside;
      few = h.graph.few;
      joined = h.graph.joined;
      rooted =
          All-append (λ k. one_of k (ids s.result.nodes) ≡ true) s.result.roots (id ∷ [])
            h.graph.rooted (sym (h.same_keys id) ∙ t, tt);
    };
    same_keys = h.same_keys;
    next_known = h.next_known;
  }

  edges-add_root : (id : Bytes) (r : Bool × Walk) → (add_root id r).result.edges ≡ r.1.result.edges
  edges-add_root id (false, s) = refl
  edges-add_root id (true, s) = refl

  pub add_roots-IsWalk :
      (roots : List CallItem) (s : Walk)
      → IsWalk show allowed max s
      → All (λ v. allowed v ≡ true) roots
      → length s.result.edges ≡ 0
      → IsWalk show allowed max (add_roots show max roots s)
  unfolding add_roots
  add_roots-IsWalk [] s h inside none_yet = h
  add_roots-IsWalk (root ∷ rest) s h inside none_yet =
      if_intro (IsWalk show allowed max) (leb max (length s.result.nodes)) _ _
        (λ b. truncate-IsWalk show allowed max s h)
        (λ b.
          let k = call_key show root in
          let r = add_call_node k root s in
          let a = add_call_node-Added show allowed max root s h inside.0 (ground arith) in
          add_roots-IsWalk rest (add_root k r) (add_root-IsWalk k r a.walk a.there) inside.1
            (ap length (edges-add_root k r ∙ a.edges) ∙ none_yet))
