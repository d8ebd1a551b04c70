-- ===== src/Feed/Pairs.antt =====
-- The pairs of a topic and an article in `topic_news`, before and after an insertion.
use topicstreams.Feed.{
  Pair, Match, Matches, same_pair, has_pair, add_pair, is_matched, insert_match, insert_page,
  insert_pages,
}
use topicstreams.Base.{
  ℕ, suc, ◌+◌, String, ◌≡◌, refl, sym, ap, ap₂, subst, ◌∙◌, ◌↔◌, inl, inr, true, ◌||◌, List, [],
  ◌∷◌, ◌++◌, arith, eq_iff, Bool-cases, length,
}

pub same_pair_iff : (p q : Pair) → same_pair p q ≡ true ↔ p ≡ q
unfolding same_pair
same_pair_iff p q = (
  λ h.
      let left : p.0 ≡ q.0 = (eq_iff p.0 q.0).0 (ground arith) in
      let right : p.1 ≡ q.1 = (eq_iff p.1 q.1).0 (ground arith) in
      ap₂ (λ (a b : String). (a, b)) left right,
  λ e. subst (λ r. same_pair p r ≡ true) e (ground (arith, eq_iff p.0 p.0, eq_iff p.1 p.1)),
)

pub same_pair_comm : (p q : Pair) → same_pair p q ≡ same_pair q p
unfolding same_pair
same_pair_comm p q = ground (arith, eq_iff p.0 q.0, eq_iff p.1 q.1, eq_iff q.0 p.0, eq_iff q.1 p.1)

pub is_matched_same :
    (p q : Pair) (rows : List Match) → same_pair p q ≡ true → is_matched p rows ≡ is_matched q rows
is_matched_same p q rows h = ap (λ r. is_matched r rows) ((same_pair_iff p q).0 h)

pub has_pair-add_pair :
    (p q : Pair) (ps : List Pair) → has_pair q (add_pair p ps) ≡ (same_pair q p || has_pair q ps)
unfolding has_pair add_pair
has_pair-add_pair p q ps = elim (Bool-cases (has_pair p ps)) [
  | inl e ↦
      let found : same_pair q p ≡ true → has_pair q ps ≡ true =
        λ h. ap (λ r. has_pair r ps) ((same_pair_iff q p).0 h) ∙ e in
      rw e (ground (arith, found))
  | inr e ↦ rw e refl
]

pub is_matched-insert :
    (now : ℕ) (p q : Pair) (t : Matches)
    → is_matched q (insert_match now p t).1.rows ≡ (same_pair q p || is_matched q t.rows)
unfolding insert_match
is_matched-insert now p q t = elim (Bool-cases (is_matched p t.rows)) [
  | inl e ↦ rw e (ground (arith, is_matched_same q p t.rows, e))
  | inr e ↦ rw e (ap (λ b. b || is_matched q t.rows) (same_pair_comm p q))
]

-- After a statement a pair is there if it was, or is one of the statement.
pub is_matched-insert_page :
    (now : ℕ) (ps : List Pair) (q : Pair) (t : Matches)
    → is_matched q (insert_page now ps t).1.rows ≡ (has_pair q ps || is_matched q t.rows)
unfolding insert_page has_pair
is_matched-insert_page now [] q t = refl
is_matched-insert_page now (p ∷ ps) q t =
    ground
      (arith, is_matched-insert now p q t, is_matched-insert_page now ps q (insert_match now p t).1)

-- The number that a statement reports is the number of rows that it adds.
pub length-insert_page :
    (now : ℕ) (ps : List Pair) (t : Matches)
    → length (insert_page now ps t).1.rows ≡ length t.rows + (insert_page now ps t).0
unfolding insert_page insert_match
length-insert_page now [] t = omega arith
length-insert_page now (p ∷ ps) t =
    ground (arith, length-insert_page now ps (insert_match now p t).1)

abbrev pub flatten : List (List Pair) → List Pair
flatten [] = []
flatten (ps ∷ pages) = ps ++ flatten pages

insert_page-append :
    (now : ℕ) (ps qs : List Pair) (t : Matches)
    → (insert_page now (ps ++ qs) t).1 ≡ (insert_page now qs (insert_page now ps t).1).1
unfolding insert_page
insert_page-append now [] qs t = refl
insert_page-append now (p ∷ ps) qs t = insert_page-append now ps qs (insert_match now p t).1

-- How the pairs are cut into statements does not matter for the rows.
pub insert_pages-flatten :
    (now : ℕ) (pages : List (List Pair)) (count : ℕ) (t : Matches)
    → (insert_pages now pages count t).1 ≡ (insert_page now (flatten pages) t).1
unfolding insert_pages insert_page
insert_pages-flatten now [] count t = refl
insert_pages-flatten now (ps ∷ pages) count t =
    insert_pages-flatten now pages (insert_page now ps t).0 (insert_page now ps t).1
    ∙ sym (insert_page-append now ps (flatten pages) t)

-- Pairs that are there already add nothing.
pub insert_page_known :
    (now : ℕ) (ps : List Pair) (t : Matches)
    → ((q : Pair) → has_pair q ps ≡ true → is_matched q t.rows ≡ true)
    → ((insert_page now ps t).0 ≡ 0) × ((insert_page now ps t).1.rows ≡ t.rows)
unfolding insert_page insert_match has_pair
insert_page_known now [] t h = (refl, refl)
insert_page_known now (p ∷ ps) t h =
    let here = h p (ground (arith, (same_pair_iff p p).1 refl)) in
    let rest =
      insert_page_known now ps (record t { next_id = suc t.next_id }) (λ q e. h q (ground arith)) in
    rw here (omega (arith, rest.0), rest.1)
