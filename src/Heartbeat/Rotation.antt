-- ===== src/Heartbeat/Rotation.antt =====
-- The query rotation of scraper/keepalive.py.
use native.Mathlib.Nat.{mul-add-mod_self_right, mod-eq_of_lt}
use topicstreams.Heartbeat.{Heartbeat, next_query}
use topicstreams.Base.{
  ap₂, sym, append_assoc, get_elem?-middle, ◌<◌, ◌++◌, ℕ, zero, suc, ◌+◌, ◌*◌, ◌%◌, ◌<◌, String,
  ◌≡◌, refl, sym, ap₂, ◌∙◌, Option, some, List, [], ◌∷◌, ◌++◌, map, arith, length, length-append,
  get_elem?, get_elem?-middle, append_assoc,
}

-- The next `n` queries.
abbrev pub draw : ℕ → Heartbeat → List (Option String)
draw zero h = []
draw (suc n) h = (next_query h).0 ∷ draw n (next_query h).1

module _ (k : ℕ) where
  drawn :
      (pre : List String) (q : String) (suf : List String)
      → get_elem?
          (pre ++ q ∷ suf)
          ((k * length (pre ++ q ∷ suf) + length pre) % length (pre ++ q ∷ suf))
        ≡ some q
  drawn pre q suf =
      let lt : length pre < length (pre ++ q ∷ suf) = omega (arith, length-append pre (q ∷ suf)) in
      rw (mul-add-mod_self_right k (length (pre ++ q ∷ suf)) (length pre), mod-eq_of_lt lt)
        (get_elem?-middle pre q suf)

  draw_rest :
      (pre suf : List String) (h : Heartbeat)
      → h.queries ≡ pre ++ suf
      → h.cursor ≡ k * length h.queries + length pre
      → draw (length suf) h ≡ map some suf
  unfolding next_query
  draw_rest pre [] h e c = refl
  draw_rest pre (q ∷ suf) h e c = ap₂ ◌∷◌ (rw (c, e) (drawn pre q suf)) (
      draw_rest (pre ++ q ∷ []) suf (next_query h).1 (e ∙ sym (append_assoc pre (q ∷ []) suf))
        (omega (arith, length-append pre (q ∷ []))))

-- A pass over the rotation that starts at a multiple of the number of queries gives each query
-- once, in the shuffled order.
draw_pass :
    (k : ℕ) (h : Heartbeat)
    → h.cursor ≡ k * length h.queries
    → draw (length h.queries) h ≡ map some h.queries
draw_pass k h c = draw_rest k [] h.queries h refl (omega arith)
