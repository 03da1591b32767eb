-- ===== src/Client/Paths.antt =====
-- Which request paths stay where the program's own literals put them.
use microsoft_defender_mcp.Prelude.{
  is_empty-eq-false_iff, append-nil, ◌∙◌, ℕ, ◌≡◌, refl, sym, ◌≢◌, inl, inr, Bool, true, false, ◌&&◌,
  ◌||◌, not, List, [], ◌∷◌, ◌++◌, arith, ◌==◌, if◌then◌else◌, Bool-cases, all, is_empty, All,
  all-eq-true_iff, All-map,
}
use microsoft_defender_mcp.Text.{Text, text_eq}
use microsoft_defender_mcp.Validation.Encoding.{is_segment_char}
use microsoft_defender_mcp.Validation.Names.{dot, dot_dot}
use microsoft_defender_mcp.Validation.Names.Accepted.{ne_text}

-- A character of a path segment (RFC 3986, section 3.3).
abbrev pub is_pchar : ℕ → Bool
is_pchar c =
    is_segment_char c
    || c == b'!'
    || c == b'$'
    || c == b'&'
    || c == b'\''
    || c == b'('
    || c == b')'
    || c == b'*'
    || c == b'+'
    || c == b','
    || c == b';'
    || c == b'='
    || c == b':'
    || c == b'@'

-- A segment that names a child: not empty, not `.` or `..`, and of such characters alone.
pub record IsSegment (t : Text) : Type 0 where
  pub nonempty : t ≢ []
  pub not_dot : t ≢ dot
  pub not_dot_dot : t ≢ dot_dot
  pub chars : All (λ c. is_pchar c ≡ true) t

unfoldable pub is_segment : Text → Bool
is_segment t = not (is_empty t) && not (text_eq t dot) && not (text_eq t dot_dot) && all is_pchar t

is_segment_sound : (t : Text) → is_segment t ≡ true → IsSegment t
unfolding is_segment
is_segment_sound t h = record {
  nonempty = (is_empty-eq-false_iff t).0 (ground arith);
  not_dot = (ne_text t dot).0 (ground arith);
  not_dot_dot = (ne_text t dot_dot).0 (ground arith);
  chars = (all-eq-true_iff is_pchar t).0 (ground arith);
}

-- `str::split('/')`
abbrev pub put : ℕ → List Text → List Text
put c [] = (c ∷ []) ∷ []
put c (w ∷ ws) = (c ∷ w) ∷ ws

unfoldable pub split_slash : Text → List Text
split_slash [] = [] ∷ []
split_slash (c ∷ s) = let rest = split_slash s in if c == b'/' then [] ∷ rest else put c rest

-- A path: it begins with a slash, and every segment names a child.
abbrev pub Confined : Text → Type 0
Confined p = (segs : List Text) × (split_slash p ≡ [] ∷ segs) × (segs ≢ []) × All IsSegment segs

-- The pieces of two texts put together: the last of the one and the first of the other are one.
abbrev pub glue : List Text → List Text → List Text
glue [] vs = vs
glue (w ∷ []) [] = w ∷ []
glue (w ∷ []) (v ∷ vs) = (w ++ v) ∷ vs
glue (w ∷ w' ∷ ws) vs = w ∷ glue (w' ∷ ws) vs

some_piece : (s : Text) → (w : Text) × (ws : List Text) × (split_slash s ≡ w ∷ ws)
unfolding split_slash
some_piece [] = ([], [], refl)
some_piece (c ∷ s) =
    let (w, ws, e) = some_piece s in
    elim (Bool-cases (c == b'/')) [
      | inl slash ↦ ([], w ∷ ws, rw (slash, e) refl)
      | inr other ↦ (c ∷ w, ws, rw (other, e) refl)
    ]

glue-put :
    (c : ℕ) (w : Text) (ws vs : List Text)
    → (v : Text) → glue (put c (w ∷ ws)) (v ∷ vs) ≡ put c (glue (w ∷ ws) (v ∷ vs))
glue-put c w [] vs v = refl
glue-put c w (w' ∷ ws) vs v = refl

split_slash-append : (s t : Text) → split_slash (s ++ t) ≡ glue (split_slash s) (split_slash t)
unfolding split_slash
split_slash-append [] t = let (v, vs, e) = some_piece t in rw e refl
split_slash-append (c ∷ s) t =
    let (w, ws, e) = some_piece s in
    let (v, vs, f) = some_piece t in
    let ih = split_slash-append s t in
    elim (Bool-cases (c == b'/')) [
      | inl slash ↦ rw (slash, ih, e, f) refl
      | inr other ↦ rw (other, ih, e, f) (sym (glue-put c w ws vs v))
    ]

split_slash_whole : (s : Text) → All (λ c. (c == b'/') ≡ false) s → split_slash s ≡ s ∷ []
unfolding split_slash
split_slash_whole [] h = refl
split_slash_whole (c ∷ s) h = rw (h.0, split_slash_whole s h.1) refl

segment_no_slash : (t : Text) → All (λ c. is_pchar c ≡ true) t → All (λ c. (c == b'/') ≡ false) t
segment_no_slash t h = All-map _ _ (λ c k. ground arith) t h

-- A literal that ends in a slash, after segments that name children.
abbrev closes : List Text → Bool
closes [] = false
closes ([] ∷ []) = true
closes (w ∷ ws) = is_segment w && closes ws

abbrev starts : List Text → Bool
starts ([] ∷ w ∷ ws) = true
starts _ = false

unfoldable pub is_base : Text → Bool
unfolding split_slash is_segment
is_base p = elim (split_slash p) [ [] ↦ false | w ∷ ws ↦ is_empty w && closes ws ]

unfoldable pub is_confined : Text → Bool
unfolding split_slash is_segment
is_confined p = elim (split_slash p) [
  | [] ↦ false
  | w ∷ ws ↦ is_empty w && not (is_empty ws) && all is_segment ws
]

empty_segment : is_segment [] ≢ true
unfolding is_segment
empty_segment e = cc

glue-closes :
    (ws : List Text) (v : Text) (vs : List Text)
    → closes ws ≡ true
    → All IsSegment (v ∷ vs)
    → (glue ws (v ∷ vs) ≢ []) × All IsSegment (glue ws (v ∷ vs))
glue-closes [] v vs h k = absurd (cc)
glue-closes ([] ∷ []) v vs h k = (λ e. cc, k)
glue-closes ((c ∷ w) ∷ []) v vs h k = absurd (ground arith)
glue-closes ([] ∷ w' ∷ ws) v vs h k = absurd (empty_segment (ground arith))
glue-closes ((c ∷ w) ∷ w' ∷ ws) v vs h k = (
  λ e. cc,
  (is_segment_sound (c ∷ w) (ground arith), (glue-closes (w' ∷ ws) v vs (ground arith) k).1),
)

-- What follows a base: segments that name children, the first of them not behind a slash.
abbrev pub Follows : Text → Type 0
Follows t = All IsSegment (split_slash t)

-- A base and what follows it is a confined path.
pub base-Confined : (base t : Text) → is_base base ≡ true → Follows t → Confined (base ++ t)
unfolding is_base
base-Confined base t h k =
    let (w, ws, e) = some_piece base in
    let (v, vs, f) = some_piece t in
    let closed : closes ws ≡ true = ground arith in
    let first : w ≡ [] = empty w (ground arith) in
    let rest : All IsSegment (v ∷ vs) = rw f at k in
    let (some_segs, segs) = glue-closes ws v vs closed rest in
    (
      glue ws (v ∷ vs),
      split_slash-append base t ∙ (rw (e, f, first) (joined ws v vs closed)),
      some_segs,
      segs,
    )
  where
    empty : (w : Text) → is_empty w ≡ true → w ≡ []
    empty [] h = refl
    empty (c ∷ w) h = absurd (cc)

    joined :
        (ws : List Text) (v : Text) (vs : List Text)
        → closes ws ≡ true
        → glue ([] ∷ ws) (v ∷ vs) ≡ [] ∷ glue ws (v ∷ vs)
    joined [] v vs h = absurd (cc)
    joined (x ∷ ws) v vs h = refl

-- A literal that begins with a slash is confined if it is tested to be.
pub literal-Confined : (p : Text) → is_confined p ≡ true → Confined p
unfolding is_confined
literal-Confined p h =
    let (w, ws, e) = some_piece p in
    (ws, e ∙ first w ws (ground arith), some_segs ws (ground arith), segments ws (ground arith))
  where
    first : (w : Text) (ws : List Text) → is_empty w ≡ true → (w ∷ ws) ≡ ([] ∷ ws)
    first [] ws h = refl
    first (c ∷ w) ws h = absurd (cc)

    some_segs : (ws : List Text) → is_empty ws ≡ false → ws ≢ []
    some_segs [] h e = cc
    some_segs (w ∷ ws) h e = cc

    segments : (ws : List Text) → all is_segment ws ≡ true → All IsSegment ws
    segments [] h = tt
    segments (w ∷ ws) h = (is_segment_sound w (ground arith), segments ws (ground arith))

-- One segment, and one segment before a confined path, follow a base.
pub segment-Follows : (t : Text) → IsSegment t → Follows t
segment-Follows t k = rw (split_slash_whole t (segment_no_slash t k.chars)) (k, tt)

pub segment-Follows-Confined : (t post : Text) → IsSegment t → Confined post → Follows (t ++ post)
segment-Follows-Confined t post k c =
    let (segs, e, _, each) = c in
    rw
      (split_slash-append t post, split_slash_whole t (segment_no_slash t k.chars), e, append-nil t)
      (k, each)
