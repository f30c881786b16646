-- ===== src/Token/Shape.antt =====
-- Which tokens are taken (`validate_worker_token_shape` of crates/supervisor-core/src/worker_token.rs).
use mathlib.Core.Path.{subst}
use mathlib.Core.List.{Memᴰ}
use decent_render.Prelude.{
  codes, ℕ, All, ◌⊎◌, ◌≤◌, ◌≡◌, ◌≢◌, ◌↔◌, refl, inl, inr, Bool, true, false, List, [], ◌∷◌, none,
  some, Text, text_eq, text_eq_iff, arith, Bool-cases, Option-cases, length, split, any, ltb, ◌==◌,
}
use decent_render.Token.{
  is_token_byte, all_bytes, claims, part, Json, base64url_decode, check_claims, check_segments,
  validate_worker_token_shape,
}

-- The names of a worker's claims.
abbrev pub worker_claims : List Text
worker_claims =
    codes "service"
    ∷ codes "tenant"
    ∷ codes "workerId"
    ∷ codes "worker_id"
    ∷ codes "platform"
    ∷ codes "deviceId"
    ∷ []

-- A letter, a digit, or one of `.`, `-`, `_` and `=`.
abbrev pub IsPlain : ℕ → Type 0
IsPlain b =
    ((b'0' ≤ b) × (b ≤ b'9'))
    ⊎ (((b'A' ≤ b) × (b ≤ b'Z'))
        ⊎ (((b'a' ≤ b) × (b ≤ b'z')) ⊎ ((b ≡ b'.') ⊎ ((b ≡ b'-') ⊎ ((b ≡ b'_') ⊎ (b ≡ b'='))))))

is_token_byte-IsPlain : (b : ℕ) → is_token_byte b ≡ true → IsPlain b
unfolding is_token_byte
is_token_byte-IsPlain b h = ground (arith, h)

IsPlain-is_token_byte : (b : ℕ) → IsPlain b → is_token_byte b ≡ true
unfolding is_token_byte
IsPlain-is_token_byte b h = ground (arith, h)

all_bytes-IsPlain : (s : Text) → all_bytes is_token_byte s ≡ true → All IsPlain s
unfolding all_bytes
all_bytes-IsPlain [] h = tt
all_bytes-IsPlain (b ∷ s) h =
    (is_token_byte-IsPlain b (ground (arith, h)), all_bytes-IsPlain s (ground (arith, h)))

IsPlain-all_bytes : (s : Text) → All IsPlain s → all_bytes is_token_byte s ≡ true
unfolding all_bytes
IsPlain-all_bytes [] h = refl
IsPlain-all_bytes (b ∷ s) (p, h) = ground (arith, IsPlain-is_token_byte b p, IsPlain-all_bytes s h)

any-Mem :
    (f : Text → Bool) (xs : List Text) → any f xs ≡ true → (x : Text) × Memᴰ x xs × (f x ≡ true)
any-Mem f [] h = absurd (cc h)
any-Mem f (x ∷ xs) h = elim (Bool-cases (f x)) [
  | inl holds ↦ (x, Memᴰ.head refl, holds)
  | inr fails ↦ let (y, m, e) = any-Mem f xs (ground arith) in (y, Memᴰ.tail m, e)
]

Mem-any : (f : Text → Bool) (x : Text) (xs : List Text) → Memᴰ x xs → f x ≡ true → any f xs ≡ true
Mem-any f x [] m h = elim m [ ]
Mem-any f x (y ∷ xs) (Memᴰ.head e) h = ground (arith, e, h)
Mem-any f x (y ∷ xs) (Memᴰ.tail m) h = ground (arith, Mem-any f x xs m h)

module _ (json : Json) where
  open json use {Value, from_slice, has}

  -- A token of the fleet: three parts between dots, none empty, at least forty bytes, all of them
  -- plain; header and payload decode to JSON, and the payload has a claim of a worker.
  pub record IsFleetToken (token : Text) : Type 0 where
    pub header : Text
    pub payload : Text
    pub signature : Text
    pub parts : split b'.' token ≡ header ∷ payload ∷ signature ∷ []
    pub filled : (header ≢ []) × (payload ≢ []) × (signature ≢ [])
    pub long : 40 ≤ length token
    pub plain : All IsPlain token
    pub header_json :
        (h : Text) × (v : Value) × (base64url_decode header ≡ some h) × (from_slice h ≡ some v)
    pub claimed :
        (p : Text) × (v : Value) × (claim : Text) × (base64url_decode payload ≡ some p)
        × (from_slice p ≡ some v)
        × Memᴰ claim worker_claims
        × (has v claim ≡ true)

  three :
      (ps : List Text)
      → length ps ≡ 3
      → (a : Text) × (b : Text) × (c : Text) × (ps ≡ a ∷ b ∷ c ∷ [])
  three [] h = absurd (omega (arith, h))
  three (a ∷ []) h = absurd (omega (arith, h))
  three (a ∷ b ∷ []) h = absurd (omega (arith, h))
  three (a ∷ b ∷ c ∷ []) h = (a, b, c, refl)
  three (a ∷ b ∷ c ∷ d ∷ ps) h = absurd (omega (arith, h))

  -- Past the tests of the text, both segments decode and the payload has a claim.
  check_segments_lem :
      (a b c : Text)
      → check_segments json (a ∷ b ∷ c ∷ []) ≡ none
      → ((h : Text) × (v : Value) × (base64url_decode a ≡ some h) × (from_slice h ≡ some v))
        × ((p : Text) × (v : Value) × (claim : Text) × (base64url_decode b ≡ some p)
            × (from_slice p ≡ some v)
            × Memᴰ claim claims
            × (has v claim ≡ true))
  unfolding check_segments part check_claims
  check_segments_lem a b c e = elim (Option-cases (base64url_decode a)) [
    | inl bad ↦ absurd (ground (arith, e, bad))
    | inr (h, ha) ↦ elim (Option-cases (base64url_decode b)) [
      | inl bad ↦ absurd (ground (arith, e, ha, bad))
      | inr (p, hp) ↦ elim (Option-cases (from_slice h)) [
        | inl bad ↦ absurd (ground (arith, e, ha, hp, bad))
        | inr (v, hv) ↦ elim (Option-cases (from_slice p)) [
          | inl bad ↦ absurd (ground (arith, e, ha, hp, hv, bad))
          | inr (u, hu) ↦ elim (Bool-cases (any (λ k. has u k) claims)) [
            | inr bad ↦ absurd (ground (arith, e, ha, hp, hv, hu, bad))
            | inl found ↦
                let (claim, m, holds) = any-Mem (λ k. has u k) claims found in
                ((h, v, ha, hv), (p, u, claim, hp, hu, m, holds))
          ]
        ]
      ]
    ]
  ]

  -- The tests that a token passed.
  passed :
      (token : Text)
      → validate_worker_token_shape json token ≡ none
      → (length (split b'.' token) ≡ 3)
        × (any (λ p. text_eq p []) (split b'.' token) ≡ false)
        × (40 ≤ length token)
        × (all_bytes is_token_byte token ≡ true)
        × (check_segments json (split b'.' token) ≡ none)
  unfolding validate_worker_token_shape
  passed token e = elim (Bool-cases (length (split b'.' token) == 3)) [
    | inr bad ↦ absurd (ground (arith, e, bad))
    | inl a ↦ elim (Bool-cases (any (λ p. text_eq p []) (split b'.' token))) [
      | inl bad ↦ absurd (ground (arith, e, a, bad))
      | inr b ↦ elim (Bool-cases (ltb (length token) 40)) [
        | inl bad ↦ absurd (ground (arith, e, a, b, bad))
        | inr c ↦ elim (Bool-cases (all_bytes is_token_byte token)) [
          | inr bad ↦ absurd (ground (arith, e, a, b, c, bad))
          | inl d ↦ (ground (arith, a), b, ground (arith, c), d, ground (arith, e, a, b, c, d))
        ]
      ]
    ]
  ]

  validate-IsFleetToken :
      (token : Text) → validate_worker_token_shape json token ≡ none → IsFleetToken token
  validate-IsFleetToken token e =
      let (count, filled, long, plain, segments) = passed token e in
      let (a, b, c, parts) = three (split b'.' token) count in
      let (head, body) =
        check_segments_lem a b c (subst (λ ps. check_segments json ps ≡ none) parts segments) in
      let all : any (λ p. text_eq p []) (a ∷ b ∷ c ∷ []) ≡ false =
        subst (λ ps. any (λ p. text_eq p []) ps ≡ false) parts filled in
      record {
        header = a;
        payload = b;
        signature = c;
        parts = parts;
        filled = (
          ground (arith, all, text_eq_iff a []),
          ground (arith, all, text_eq_iff b []),
          ground (arith, all, text_eq_iff c []),
        );
        long = long;
        plain = all_bytes-IsPlain token plain;
        header_json = head;
        claimed = body;
      }

  IsFleetToken-segments :
      (token : Text) (t : IsFleetToken token)
      → check_segments json (t.header ∷ t.payload ∷ t.signature ∷ []) ≡ none
  unfolding check_segments part check_claims
  IsFleetToken-segments token t =
      let (h, v, ha, hv) = t.header_json in
      let (p, u, claim, hp, hu, m, holds) = t.claimed in
      let found = Mem-any (λ k. has u k) claim claims m holds in
      rw (check_segments, ha, hp, check_claims, hv, hu, found) refl

  IsFleetToken-validate :
      (token : Text) → IsFleetToken token → validate_worker_token_shape json token ≡ none
  unfolding validate_worker_token_shape
  IsFleetToken-validate token t =
      let (a, b, c) = t.filled in
      ground (
        arith,
        t.parts,
        t.long,
        IsPlain-all_bytes token t.plain,
        text_eq_iff t.header [],
        text_eq_iff t.payload [],
        text_eq_iff t.signature [],
        IsFleetToken-segments token t,
      )

  -- A token is taken exactly if it is one of the fleet: it has three parts between dots, none empty, and
  -- at least forty bytes, all of the base64url alphabet, dots or padding; its header and payload decode to
  -- JSON; and the payload has a claim of a worker.
  pub validate_worker_token_shape_iff :
      (token : Text) → (validate_worker_token_shape json token ≡ none) ↔ IsFleetToken token
  validate_worker_token_shape_iff token = (validate-IsFleetToken token, IsFleetToken-validate token)
