-- ===== src/Routes/Paths.antt =====
-- The segments of the paths that `toPath` of apps/web/src/routes.ts writes.
use Prim.Native.String.{◌++◌ as append}
use text.Mathlib.TextLemmas.{nil-append, cons-append, append-nil}
use uscs.Common.{
  String, Bool, true, false, not, List, [], ◌∷◌, Option, some, ◌≡◌, refl, ap, ◌∙◌, all, filter,
  arith, ◌⊎◌, ◌===◌, is_empty, split, strip_end, lacks, meet, split-append, split-lacks,
  strip_end-lacks, strip_end-append, Bool-cases, inl, inr, eq_of_===,
}
use uscs.Routes.{
  slash, cleaned, decode_all, routed, parse_clean, parse_route, parse_segments, org_path,
}

-- What is documented of `encodeURIComponent` and `decodeURIComponent`.
pub record IsCodec (encode : String → String) (decode : String → Option String) : Type 0 where
  -- Decoding gives back what was encoded.
  pub decode-encode : (s : String) → decode (encode s) ≡ some s
  -- An encoded text has no slash.
  pub encode-lacks : (s : String) → lacks slash (encode s) ≡ true
  -- Only the empty text is encoded as the empty text.
  pub encode_filled : (s : String) → is_empty s ≡ false → is_empty (encode s) ≡ false
  -- A text with no percent sign is decoded as itself.
  pub decode_plain : (s : String) → lacks b'%' s ≡ true → decode s ≡ some s

-- A text that is not empty and does not end in a slash.
abbrev pub EndsWell : String → Type 0
EndsWell s = (is_empty s ≡ false) × (strip_end slash s ≡ s)

pub EndsWell-append : (s t : String) → EndsWell t → EndsWell (append s t)
EndsWell-append s t (f, e) = (filled s, strip_end-append slash s t f e)
  where
    filled : (s : String) → is_empty (append s t) ≡ false
    filled String.[] = rw nil-append f
    filled (String.◌∷◌ c s) = rw cons-append refl

-- The empty text, or one that ends well.
abbrev pub Closes : String → Type 0
Closes s = (s ≡ "") ⊎ EndsWell s

EndsWell-Closes : (s t : String) → EndsWell s → Closes t → EndsWell (append s t)
EndsWell-Closes s t w (inl e) = rw (e, append-nil s) w
EndsWell-Closes s t w (inr v) = EndsWell-append s t v

-- No segment is empty.
abbrev pub filled : List String → Bool
filled segs = all (λ s. not (is_empty s)) segs

filter-filled :
    (segs : List String) → filled segs ≡ true → filter (λ s. not (is_empty s)) segs ≡ segs
filter-filled [] h = refl
filter-filled (s ∷ segs) h = ground (arith, filter-filled segs)

module _ (encode : String → String) (decode : String → Option String)
    (codec : IsCodec encode decode) where
  pub encode-EndsWell : (s : String) → is_empty s ≡ false → EndsWell (encode s)
  encode-EndsWell s h =
      (codec.encode_filled s h, strip_end-lacks slash (encode s) (codec.encode-lacks s))

  -- A literal with its slashes, an encoded text and what follows.
  split_step :
      (word s rest : String) (front tail : List String)
      → split slash word ≡ "" ∷ front
      → split slash rest ≡ "" ∷ tail
      → split slash (append word (append (encode s) rest)) ≡ meet ("" ∷ front) (encode s ∷ tail)
  split_step word s rest front tail f t =
      rw
        (
          split-append slash word (append (encode s) rest),
          split-append slash (encode s) rest,
          split-lacks slash (encode s) (codec.encode-lacks s),
          f,
          t,
          append-nil (encode s),
        )
        refl

  pub split-org_path :
      (org rest : String) (tail : List String)
      → split slash rest ≡ "" ∷ tail
      → split slash (org_path encode org rest) ≡ "" ∷ "orgs" ∷ encode org ∷ tail
  split-org_path org rest tail t =
      split_step "/orgs/" org rest ("orgs" ∷ "" ∷ []) tail refl t
      ∙ rw (nil-append (encode org)) refl

  pub split_projects :
      (proj rest : String) (tail : List String)
      → split slash rest ≡ "" ∷ tail
      → split slash (append "/projects/" (append (encode proj) rest))
        ≡ "" ∷ "projects" ∷ encode proj ∷ tail
  split_projects proj rest tail t =
      split_step "/projects/" proj rest ("projects" ∷ "" ∷ []) tail refl t
      ∙ rw (nil-append (encode proj)) refl

  -- The segments of a section and of what follows it.
  pub split_section :
      (section rest : String) (tail : List String)
      → split slash rest ≡ "" ∷ tail
      → split slash (append "/" (append (encode section) rest)) ≡ "" ∷ encode section ∷ tail
  split_section section rest tail t =
      split_step "/" section rest ("" ∷ []) tail refl t ∙ rw (nil-append (encode section)) refl

  -- The segments of a sub-item.
  pub split_sub : (sub : String) → split slash (append "/" (encode sub)) ≡ "" ∷ encode sub ∷ []
  split_sub sub =
      rw
        (
          split-append slash "/" (encode sub),
          split-lacks slash (encode sub) (codec.encode-lacks sub),
          nil-append (encode sub),
        )
        refl

  pub org_path-EndsWell :
      (org rest : String) → is_empty org ≡ false → Closes rest → EndsWell (org_path encode org rest)
  org_path-EndsWell org rest h c =
      EndsWell-append "/orgs/" (append (encode org) rest)
        (EndsWell-Closes (encode org) rest (encode-EndsWell org h) c)

  pub section-EndsWell :
      (word s rest : String)
      → is_empty s ≡ false
      → Closes rest
      → EndsWell (append word (append (encode s) rest))
  section-EndsWell word s rest h c =
      EndsWell-append word (append (encode s) rest)
        (EndsWell-Closes (encode s) rest (encode-EndsWell s h) c)

  pub decode_all-cons :
      (s t : String) (rest ts : List String)
      → decode s ≡ some t
      → decode_all decode rest ≡ some ts
      → decode_all decode (s ∷ rest) ≡ some (t ∷ ts)
  decode_all-cons s t rest ts e f = cc (e, f)

  -- The route of a path is that of its decoded segments.
  pub parse_route_of :
      (path : String) (raws segs : List String)
      → EndsWell path
      → split slash path ≡ "" ∷ "orgs" ∷ raws
      → filled raws ≡ true
      → decode_all decode raws ≡ some segs
      → parse_route decode path ≡ some (parse_segments path ("orgs" ∷ segs))
  unfolding parse_route parse_clean
  parse_route_of path raws segs (f, e) s n d =
      let root : (path === "/") ≡ false = other "/" refl in
      let back : (path === "/auth/callback") ≡ false = other "/auth/callback" refl in
      let clean : cleaned path ≡ path = rw (e, f) refl in
      let kept = ap (λ l. "orgs" ∷ l) (filter-filled raws n) in
      let parts =
        ap (λ l. decode_all decode (filter (λ s. not (is_empty s)) l)) s
        ∙ (ap (decode_all decode) kept
            ∙ decode_all-cons "orgs" "orgs" raws segs (codec.decode_plain "orgs" refl) d) in
      ap (parse_clean decode) clean ∙ rw (root, back) (ap (routed path) parts)
    where
      second : List String → String
      second (p ∷ q ∷ r) = q
      second _ = ""

      other : (t : String) → (second (split slash t) === "orgs") ≡ false → (path === t) ≡ false
      other t h = elim (Bool-cases (path === t)) [
        | inl same ↦
            let e' = eq_of_=== path t same in
            let seconds = ap (λ u. second (split slash u) === "orgs") e' in
            ground (arith, seconds, h, ap (λ l. second l === "orgs") s)
        | inr apart ↦ apart
      ]
