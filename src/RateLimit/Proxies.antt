-- ===== src/RateLimit/Proxies.antt =====
-- The client's address in api/main.py: `RateLimitMiddleware._client_ip` behind trusted proxies.
use topicstreams.Text.{strip}
use topicstreams.RateLimit.{RateLimiter, parts, nth_from_right, client_ip}
use topicstreams.Base.{
  ℕ, suc, ◌+◌, ◌-◌, ◌≤◌, ◌<◌, min, String, ◌≡◌, refl, ap, inl, inr, true, false, Option, some, List,
  [], ◌∷◌, ◌++◌, arith, ltb, str_eq, Bool-cases, length, is_empty, length-append, get_elem?,
}

parts-append : (ps qs : List String) → parts (ps ++ qs) ≡ parts ps ++ parts qs
unfolding parts
parts-append [] qs = refl
parts-append (p ∷ ps) qs = elim (Bool-cases (str_eq (strip p) "")) [
  | inl blank ↦ rw blank (parts-append ps qs)
  | inr filled ↦ rw filled (ap (λ r. strip p ∷ r) (parts-append ps qs))
]

get_elem?_shift :
    (xs ys : List String) (i : ℕ) → get_elem? (xs ++ ys) (length xs + i) ≡ get_elem? ys i
get_elem?_shift [] ys i = let e : 0 + i ≡ i = omega arith in rw e refl
get_elem?_shift (x ∷ xs) ys i =
    let e : suc (length xs) + i ≡ suc (length xs + i) = omega arith in
    rw e (get_elem?_shift xs ys i)

nth_from_right-append :
    (n : ℕ) (xs ys : List String)
    → n ≤ length ys
    → nth_from_right n (xs ++ ys) ≡ nth_from_right n ys
unfolding nth_from_right
nth_from_right-append n xs ys le =
    let e : length (xs ++ ys) - min n (length (xs ++ ys))
        ≡ length xs + (length ys - min n (length ys)) =
      omega (arith, length-append xs ys) in
    rw e (get_elem?_shift xs ys (length ys - min n (length ys)))

filled_append : (xs ys : List String) → 0 < length ys → is_empty (xs ++ ys) ≡ false
filled_append [] [] h = absurd (omega arith)
filled_append [] (y ∷ ys) h = refl
filled_append (x ∷ xs) ys h = refl

-- What a client puts in front of the header cannot change the address that is taken for it, if each
-- trusted proxy has appended an entry.
client_ip_prepend :
    (l : RateLimiter) (forged appended : List String) (peer : Option String)
    → 0 < l.trusted_proxies
    → l.trusted_proxies ≤ length (parts appended)
    → client_ip l (record { forwarded_for = some (forged ++ appended); peer = peer })
      ≡ client_ip l (record { forwarded_for = some appended; peer = peer })
unfolding client_ip
client_ip_prepend l forged appended peer pos enough =
    let both = parts-append forged appended in
    let there = filled_append (parts forged) (parts appended) (omega arith) in
    let there' = filled_append [] (parts appended) (omega arith) in
    let trusts : ltb 0 l.trusted_proxies ≡ true = ground arith in
    rw (both, there, there', trusts)
      (rw (nth_from_right-append l.trusted_proxies (parts forged) (parts appended) enough) refl)
