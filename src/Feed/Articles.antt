-- ===== src/Feed/Articles.antt =====
-- The rows of `news` that `insert_news_entries` of common/database.py leaves.
use topicstreams.Model.{NewsEntry}
use topicstreams.Text.{codes}
use topicstreams.Feed.{
  Article, Batch, is_text, size, merge_entry, upsert_snippet, upsert_article, upsert_news,
  gather_entry, gather,
}
use topicstreams.Base.{
  ℕ, ◌≤◌, String, ◌≡◌, refl, sym, ap, subst, ◌∙◌, inl, inr, Option, none, some, List, [], ◌∷◌,
  arith, eq_iff, ltb, str_eq, Bool-cases, length, All, get, put, get-put, get-put_self, get-put_ne,
  DistinctKeys, get_absent, put-DistinctKeys,
}

abbrev pub upserted : Option Article → Option Article → Option Article
upserted none old = old
upserted (some new) old = some (upsert_article new old)

-- The upsert of a batch without a repeated id, read back.
pub get-upsert_news :
    (k : String) (batch news : List (String × Article))
    → DistinctKeys batch
    → get k (upsert_news batch news) ≡ upserted (get k batch) (get k news)
unfolding upsert_news get
get-upsert_news k [] news d = refl
get-upsert_news k ((i, a) ∷ batch) news d = elim (Bool-cases (str_eq i k)) [
  | inl same ↦
      let name : i ≡ k = (eq_iff i k).0 same in
      let gone : get k batch ≡ none =
        subst (λ j. get j batch ≡ none) name (get_absent i batch d.0) in
      get-upsert_news k batch (put i (upsert_article a (get i news)) news) d.1
      ∙ rw gone (
          get-put i k (upsert_article a (get i news)) news
          ∙ rw same (ap (λ j. some (upsert_article a (get j news))) name))
  | inr other ↦
      get-upsert_news k batch (put i (upsert_article a (get i news)) news) d.1
      ∙ rw other
          (ap (upserted (get k batch)) (get-put_ne i k (upsert_article a (get i news)) news other))
]

pub gather-DistinctKeys :
    (news_id_for_url : String → String) (entries : List NewsEntry) (b : Batch)
    → DistinctKeys b.news_by_id
    → DistinctKeys (gather news_id_for_url entries b).news_by_id
unfolding gather gather_entry
gather-DistinctKeys news_id_for_url [] b d = d
gather-DistinctKeys news_id_for_url (e ∷ entries) b d =
    gather-DistinctKeys news_id_for_url entries (gather_entry news_id_for_url e b) (
      put-DistinctKeys (news_id_for_url e.url)
        (merge_entry e (get (news_id_for_url e.url) b.news_by_id)) b.news_by_id d)

upsert_snippet_twice :
    (new old : Option String) → upsert_snippet new (upsert_snippet new old) ≡ upsert_snippet new old
unfolding upsert_snippet
upsert_snippet_twice none old = refl
upsert_snippet_twice (some s) none = ground arith
upsert_snippet_twice (some s) (some t) =
    elim (Bool-cases (ltb (length (codes t)) (length (codes s)))) [
      | inl e ↦ rw e (ground arith)
      | inr e ↦ rw e (rw e refl)
    ]

upsert_snippet_same : (s : Option String) → upsert_snippet s s ≡ s
unfolding upsert_snippet
upsert_snippet_same none = refl
upsert_snippet_same (some s) = ground arith

pub upserted_twice : (new old : Option Article) → upserted new (upserted new old) ≡ upserted new old
unfolding upsert_article upsert_snippet
upserted_twice none old = refl
upserted_twice (some a) none =
    ap (λ s. some (record a { snippet = s })) (upsert_snippet_same a.snippet)
upserted_twice (some a) (some o) =
    ap (λ s. some (record o { snippet = s })) (upsert_snippet_twice a.snippet o.snippet)

-- The article was there with these columns, which never change, and a snippet that is not longer.
abbrev pub KeepsArticle : Article → Option Article → Type 0
KeepsArticle old none = ⊥
KeepsArticle old (some new) =
    (new.url ≡ old.url)
    × (new.title ≡ old.title)
    × (new.domain ≡ old.domain)
    × (new.source ≡ old.source)
    × (size old.snippet ≤ size new.snippet)

upsert_snippet_grows :
    (new old : Option String)
    → (size old ≤ size (upsert_snippet new old)) × (size new ≤ size (upsert_snippet new old))
unfolding upsert_snippet
upsert_snippet_grows none old = (omega arith, omega arith)
upsert_snippet_grows (some s) none = (omega arith, omega arith)
upsert_snippet_grows (some s) (some t) = (ground arith, ground arith)

pub upserted-KeepsArticle :
    (new : Option Article) (old : Article) → KeepsArticle old (upserted new (some old))
unfolding upsert_article
upserted-KeepsArticle none old = (refl, refl, refl, refl, omega arith)
upserted-KeepsArticle (some a) old =
    (refl, refl, refl, refl, (upsert_snippet_grows a.snippet old.snippet).0)

-- The article is there with a snippet of at least this length.
abbrev pub Shows : ℕ → Option Article → Type 0
Shows n none = ⊥
Shows n (some a) = n ≤ size a.snippet

pub upserted-Shows : (n : ℕ) (new old : Option Article) → Shows n new → Shows n (upserted new old)
unfolding upsert_article
upserted-Shows n none old h = absurd h
upserted-Shows n (some a) none h = h
upserted-Shows n (some a) (some o) h =
    omega (arith, (upsert_snippet_grows a.snippet o.snippet).1, h)

is_text-size : (s : Option String) → is_text s ≡ ltb 0 (size s)
unfolding is_text
is_text-size none = ground arith
is_text-size (some s) = refl

merge_entry_grows :
    (e : NewsEntry) (o : Option Article) (n : ℕ)
    → (size e.snippet ≤ size (merge_entry e o).snippet)
      × (Shows n o → n ≤ size (merge_entry e o).snippet)
unfolding merge_entry
merge_entry_grows e none n = (omega arith, λ h. absurd h)
merge_entry_grows e (some a) n = (
  ground (arith, is_text-size e.snippet, is_text-size a.snippet),
  λ h. ground (arith, is_text-size e.snippet, is_text-size a.snippet),
)

gather_entry-Shows :
    (news_id_for_url : String → String) (e : NewsEntry) (b : Batch) (i : String) (n : ℕ)
    → Shows n (get i b.news_by_id)
    → Shows n (get i (gather_entry news_id_for_url e b).news_by_id)
unfolding gather_entry
gather_entry-Shows news_id_for_url e b i n h =
    let j : String = news_id_for_url e.url in
    let d : List (String × Article) = b.news_by_id in
    elim (Bool-cases (str_eq j i)) [
      | inl same ↦
          let name : j ≡ i = (eq_iff j i).0 same in
          let written : get i (put j (merge_entry e (get j d)) d) ≡ some (merge_entry e (get j d)) =
            get-put j i (merge_entry e (get j d)) d ∙ rw same refl in
          subst (Shows n) (sym written)
            ((merge_entry_grows e (get j d) n).1 (subst (λ k. Shows n (get k d)) (sym name) h))
      | inr other ↦ subst (Shows n) (sym (get-put_ne j i (merge_entry e (get j d)) d other)) h
    ]

gather-Shows :
    (news_id_for_url : String → String) (entries : List NewsEntry) (b : Batch) (i : String) (n : ℕ)
    → Shows n (get i b.news_by_id)
    → Shows n (get i (gather news_id_for_url entries b).news_by_id)
unfolding gather
gather-Shows news_id_for_url [] b i n h = h
gather-Shows news_id_for_url (e ∷ entries) b i n h =
    gather-Shows news_id_for_url entries (gather_entry news_id_for_url e b) i n
      (gather_entry-Shows news_id_for_url e b i n h)

-- The batch shows each entry's article with a snippet that is as long as the entry's.
pub gather_longest :
    (news_id_for_url : String → String) (entries : List NewsEntry) (b : Batch)
    → All
        (λ e.
          Shows
            (size e.snippet)
            (get (news_id_for_url e.url) (gather news_id_for_url entries b).news_by_id))
        entries
unfolding gather gather_entry
gather_longest news_id_for_url [] b = tt
gather_longest news_id_for_url (e ∷ entries) b =
    let i : String = news_id_for_url e.url in
    let d : List (String × Article) = b.news_by_id in
    (
      gather-Shows news_id_for_url entries (gather_entry news_id_for_url e b) i (size e.snippet) (
          subst (Shows (size e.snippet)) (sym (get-put_self i (merge_entry e (get i d)) d))
            (merge_entry_grows e (get i d) 0).0),
      gather_longest news_id_for_url entries (gather_entry news_id_for_url e b),
    )
