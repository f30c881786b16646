-- ===== src/Token/Dispatch.antt =====
-- Which dispatch URLs are dialled (crates/supervisor-core/src/dispatch_url.rs).
use decent_render.Prelude.{
  ◌≡◌, ◌↔◌, refl, ◌⊎◌, inl, inr, Bool, true, ◌||◌, Option, none, some, Text, codes, text_eq,
  text_eq_sound, ap, arith, Bool-cases,
}
use decent_render.Os.{Fallible, Fallible-cases, pass}
use decent_render.Token.{ParsedUrl, is_local_host, is_local, check_scheme, validate_dispatch_url}

-- No host at all, or this machine.
abbrev pub IsLocal : Option Text → Type 0
IsLocal host =
    (host ≡ none)
    ⊎ ((host ≡ some (codes "localhost"))
        ⊎ ((host ≡ some (codes "127.0.0.1")) ⊎ (host ≡ some (codes "[::1]"))))

either : (a b c : Bool) → (a || b || c) ≡ true → (a ≡ true) ⊎ ((b ≡ true) ⊎ (c ≡ true))
either a b c h = ground arith

is_local_host-IsLocal : (h : Option Text) → is_local_host h ≡ true → IsLocal h
unfolding is_local_host
is_local_host-IsLocal none e = inl refl
is_local_host-IsLocal (some h) e = elim (either _ _ _ e) [
  | inl same ↦ inr (inl (ap some (text_eq_sound h (codes "localhost") same)))
  | inr (inl same) ↦ inr (inr (inl (ap some (text_eq_sound h (codes "127.0.0.1") same))))
  | inr (inr same) ↦ inr (inr (inr (ap some (text_eq_sound h (codes "[::1]") same))))
]

IsLocal-is_local_host : (h : Option Text) → IsLocal h → is_local_host h ≡ true
unfolding is_local_host text_eq
IsLocal-is_local_host h (inl e) = rw e refl
IsLocal-is_local_host h (inr (inl e)) = rw e refl
IsLocal-is_local_host h (inr (inr (inl e))) = rw e refl
IsLocal-is_local_host h (inr (inr (inr e))) = rw e refl

-- Safe to send the token over: encrypted, or in the clear to this machine only.
abbrev pub IsSafeUrl : ParsedUrl → Type 0
IsSafeUrl u = (u.scheme ≡ codes "wss") ⊎ ((u.scheme ≡ codes "ws") × IsLocal u.host)

check_scheme-IsSafeUrl : (u : ParsedUrl) → check_scheme u ≡ none → IsSafeUrl u
unfolding check_scheme is_local
check_scheme-IsSafeUrl u e = elim (Bool-cases (text_eq u.scheme (codes "wss"))) [
  | inl secure ↦ inl (text_eq_sound u.scheme (codes "wss") secure)
  | inr other ↦ elim (Bool-cases (text_eq u.scheme (codes "ws"))) [
    | inl plain ↦ inr (
      text_eq_sound u.scheme (codes "ws") plain,
      is_local_host-IsLocal u.host (ground (arith, e, other, plain)),
    )
    | inr foreign ↦ absurd (ground (arith, e, other, foreign))
  ]
]

IsSafeUrl-check_scheme : (u : ParsedUrl) → IsSafeUrl u → check_scheme u ≡ none
unfolding check_scheme is_local text_eq
IsSafeUrl-check_scheme u (inl secure) = rw (check_scheme, secure) refl
IsSafeUrl-check_scheme u (inr (plain, home)) =
    rw (check_scheme, plain, is_local, IsLocal-is_local_host u.host home) refl

-- A dispatch URL is accepted exactly if it parses, and either its scheme is `wss`, or it is `ws` and
-- the host is absent or this machine: a token never goes out in the clear to another host.
pub validate_dispatch_url_iff :
    (parse : Text → Fallible ParsedUrl) (url : Text)
    → (validate_dispatch_url parse url ≡ none)
      ↔ ((u : ParsedUrl) × (parse url ≡ pass u) × IsSafeUrl u)
unfolding validate_dispatch_url
validate_dispatch_url_iff parse url = (
  λ e. elim (Fallible-cases (parse url)) [
    | inr (m, bad) ↦ absurd (ground (arith, e, bad))
    | inl (u, good) ↦ (u, good, check_scheme-IsSafeUrl u (ground (arith, e, good)))
  ],
  λ (u, good, safe). ground (arith, good, IsSafeUrl-check_scheme u safe),
)
