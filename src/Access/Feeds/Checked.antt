-- ===== src/Access/Feeds/Checked.antt =====
-- Which deliveries the check of a feed lets through.
use siem_v.Prelude.{
  ℕ, ◌≡◌, ◌↔◌, refl, sym, ap, subst, ◌∙◌, true, false, Option, none, some, List, [], ◌∷◌, ◌++◌,
  ◌==◌, Bool-cases, inl, inr, arith, if◌then◌else◌,
}
use siem_v.Prelude.Text.{Str, str_eq, str_eq_refl, str_eq→eq}
use siem_v.Prelude.Maps.{Map, lookup, put, lookup-put}
use siem_v.Access.Feeds.{
  has_dot, encode, add_byte, split_dots, two_parts, split_feed_token, feed_secret_matches, Feed,
  Store, index_feeds, refresh_store, allowed, check_feed, check_parts, check,
}

-- A part of a token: neither empty nor with a dot.
abbrev pub IsPart : Str → Type 0
IsPart s = (str_eq s [] ≡ false) × (has_dot s ≡ false)

split_dots-dotless : (b : Str) → has_dot b ≡ false → split_dots b ≡ b ∷ []
unfolding split_dots add_byte
split_dots-dotless [] h = refl
split_dots-dotless (c ∷ b) h =
    let rest = split_dots-dotless b (ground arith) in
    let other : (c == b'.') ≡ false = ground arith in rw (rest, other) refl

split_dots-encode :
    (a b : Str) → has_dot a ≡ false → has_dot b ≡ false → split_dots (a ++ b'.' ∷ b) ≡ a ∷ b ∷ []
unfolding split_dots add_byte
split_dots-encode [] b h k = rw (split_dots-dotless b k) refl
split_dots-encode (c ∷ a) b h k =
    let rest = split_dots-encode a b (ground arith) k in
    let other : (c == b'.') ≡ false = ground arith in rw (rest, other) refl

-- The parts hold no dot, and the text is what they give when joined.
abbrev join : List Str → Str
join [] = []
join (p ∷ []) = p
join (p ∷ q ∷ parts) = p ++ b'.' ∷ join (q ∷ parts)

abbrev Dotless : List Str → Type 0
Dotless [] = Unit
Dotless (p ∷ parts) = (has_dot p ≡ false) × Dotless parts

add_byte-join : (c : ℕ) (parts : List Str) → join (add_byte c parts) ≡ c ∷ join parts
unfolding add_byte
add_byte-join c [] = refl
add_byte-join c (p ∷ []) = refl
add_byte-join c (p ∷ q ∷ parts) = refl

add_byte-Dotless :
    (c : ℕ) (parts : List Str) → (c == b'.') ≡ false → Dotless parts → Dotless (add_byte c parts)
unfolding add_byte
add_byte-Dotless c [] h d = (ground arith, tt)
add_byte-Dotless c (p ∷ parts) h d = (ground (arith, d.0), d.1)

split_dots-cons : (s : Str) → (p : Str) × (parts : List Str) × (split_dots s ≡ p ∷ parts)
unfolding split_dots add_byte
split_dots-cons [] = ([], [], refl)
split_dots-cons (c ∷ s) =
    let (p, parts, e) = split_dots-cons s in
    elim (Bool-cases (c == b'.')) [
      | inl dot ↦ ([], split_dots s, rw dot refl)
      | inr other ↦ (c ∷ p, parts, rw (other, e) refl)
    ]

split_dots-join : (s : Str) → (join (split_dots s) ≡ s) × Dotless (split_dots s)
unfolding split_dots
split_dots-join [] = (refl, (refl, tt))
split_dots-join (c ∷ s) =
    let rest = split_dots-join s in
    let (p, parts, e) = split_dots-cons s in
    elim (Bool-cases (c == b'.')) [
      | inl dot ↦
          let byte : b'.' ≡ c = ground arith in
          let head : join ([] ∷ split_dots s) ≡ b'.' ∷ join (split_dots s) = rw e refl in
          rw dot (head ∙ ap (λ t. b'.' ∷ t) rest.0 ∙ ap (λ d. d ∷ s) byte, (refl, rest.1))
      | inr other ↦ rw other (
        add_byte-join c (split_dots s) ∙ ap (λ t. c ∷ t) rest.0,
        add_byte-Dotless c (split_dots s) other rest.1,
      )
    ]

-- A credential splits exactly if it is the text of a token.
split_feed_token_iff :
    (wire a b : Str)
    → (split_feed_token wire ≡ some (a, b)) ↔ ((wire ≡ a ++ b'.' ∷ b) × IsPart a × IsPart b)
unfolding split_feed_token two_parts
split_feed_token_iff wire a b = (
  λ h. go (split_dots wire) (split_dots-join wire).0 (split_dots-join wire).1 h,
  λ h. rw (h.0, split_dots-encode a b h.1.1 h.2.1) (ground (arith, h)),
)
  where
    go :
        (parts : List Str)
        → join parts ≡ wire
        → Dotless parts
        → two_parts parts ≡ some (a, b)
        → (wire ≡ a ++ b'.' ∷ b) × IsPart a × IsPart b
    go [] e d h = cc
    go (p ∷ []) e d h = cc
    go (p ∷ q ∷ r ∷ parts) e d h = cc
    go (p ∷ q ∷ []) e d h =
        let first : p ≡ a = ground arith in
        let second : q ≡ b = ground arith in
        let filled : (str_eq p [] ≡ false) × (str_eq q [] ≡ false) = (ground arith, ground arith) in
        subst (λ x. (wire ≡ x ++ b'.' ∷ b) × IsPart x × IsPart b) first
          (subst (λ y. (wire ≡ p ++ b'.' ∷ y) × IsPart p × IsPart y) second
            (sym e, (filled.0, d.0), (filled.1, d.1.0)))

-- The last of the feeds with the id.
abbrev pub latest : Str → List Feed → Option Feed → Option Feed
latest id [] found = found
latest id (f ∷ feeds) found = latest id feeds (if str_eq f.id id then some f else found)

lookup-index_feeds :
    (id : Str) (feeds : List Feed) (m : Map Feed)
    → lookup id (index_feeds feeds m) ≡ latest id feeds (lookup id m)
unfolding index_feeds
lookup-index_feeds id [] m = refl
lookup-index_feeds id (f ∷ feeds) m =
    lookup-index_feeds id feeds (put f.id f m) ∙ ap (latest id feeds) (lookup-put f.id id f m)

-- What the stored feed has to say of a presented secret.
abbrev pub IsMatch : (Str → Str) → Str → Str → Feed → Type 0
IsMatch hash provider secret f =
    (f.provider ≡ provider) × (str_eq f.token_hash [] ≡ false) × (hash secret ≡ f.token_hash)

module _ (hash : Str → Str) where
  check_feed_iff :
      (provider secret : Str) (o : Option Feed) (f : Feed)
      → (check_feed hash provider secret o ≡ allowed f)
        ↔ ((o ≡ some f) × IsMatch hash provider secret f)
  unfolding check_feed feed_secret_matches
  check_feed_iff provider secret none f = (λ h. cc, λ h. cc)
  check_feed_iff provider secret (some g) f = (
    λ h.
        let same : g ≡ f = ground arith in
        let facts : (str_eq g.provider provider ≡ true)
            × (str_eq g.token_hash [] ≡ false)
            × (str_eq (hash secret) g.token_hash ≡ true) =
          (ground arith, ground arith, ground arith) in
        let held = subst (IsMatch hash provider secret) same (
          str_eq→eq g.provider provider facts.0,
          facts.1,
          str_eq→eq (hash secret) g.token_hash facts.2,
        ) in
        (ap some same, held),
    λ h.
        let same : g ≡ f = ground (arith, h.0) in
        let back = subst (IsMatch hash provider secret) (sym same) h.1 in
        let one : str_eq g.provider provider ≡ true = rw back.0 (str_eq_refl provider) in
        let two : str_eq (hash secret) g.token_hash ≡ true = rw back.2 (str_eq_refl g.token_hash) in
        rw (one, back.1, two) (ap allowed same),
  )

  check_parts_iff :
      (s : Store) (provider id : Str) (o : Option (Str × Str)) (f : Feed)
      → (check_parts hash s provider id o ≡ allowed f) ↔ (
          (secret : Str) × (o ≡ some (id, secret))
          × (check_feed hash provider secret (lookup id s.by_id) ≡ allowed f))
  unfolding check_parts
  check_parts_iff s provider id none f = (λ h. cc, λ h. cc)
  check_parts_iff s provider id (some (token_id, secret)) f = (
    λ h.
        let own : str_eq token_id id ≡ true = ground arith in
        (secret, ap (λ i. some (i, secret)) (str_eq→eq token_id id own), ground arith),
    λ h.
        let own : token_id ≡ id = ground (arith, h.1) in
        let presented : h.0 ≡ secret = ground (arith, h.1) in
        rw (own, str_eq_refl)
          (subst (λ x. check_feed hash provider x (lookup id s.by_id) ≡ allowed f) presented h.2),
  )

  -- After the list of enabled feeds has been read, a delivery is let through for a feed exactly if
  -- the credential is the id of the path and a secret joined by a dot, the feed is the last in the
  -- list with that id and of the provider of the path, and has the hash of the secret.
  pub check-allowed_iff :
      (feeds : List Feed) (s : Store) (provider id wire : Str) (f : Feed)
      → (check hash (refresh_store (some feeds) s) provider id wire ≡ allowed f) ↔ (
          (secret : Str) × (wire ≡ encode (record { feed_id = id; secret = secret }))
          × IsPart id
          × IsPart secret
          × (latest id feeds none ≡ some f)
          × IsMatch hash provider secret f)
  unfolding check refresh_store encode lookup
  check-allowed_iff feeds s provider id wire f =
      let loaded = refresh_store (some feeds) s in
      let found = lookup-index_feeds id feeds [] in
      let parts = check_parts_iff loaded provider id (split_feed_token wire) f in
      (
        λ h.
            let (secret, split, feed) = parts.0 h in
            let text = (split_feed_token_iff wire id secret).0 split in
            let match = (check_feed_iff provider secret (lookup id loaded.by_id) f).0 feed in
            (secret, text.0, text.1, text.2, sym found ∙ match.0, match.1),
        λ h.
            let (secret, text, first, second, last, match) = h in
            parts.1 (
              secret,
              (split_feed_token_iff wire id secret).1 (text, first, second),
              (check_feed_iff provider secret (lookup id loaded.by_id) f).1 (found ∙ last, match),
            ),
      )
