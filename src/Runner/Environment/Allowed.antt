-- ===== src/Runner/Environment/Allowed.antt =====
-- Which variables reach the runner child (crates/supervisor-core/src/runner.rs).
use mathlib.Core.Path.{subst}
use mathlib.Core.List.{Memᴰ}
use decent_render.Prelude.{
  ◌≡◌, ◌≢◌, ◌⊎◌, inl, inr, refl, sym, Bool, true, false, ◌||◌, List, [], ◌∷◌, ◌++◌, Option, none,
  some, Text, codes, text_eq, text_eq_refl, text_eq_iff, text_eq_sound, starts_with, if◌then◌else◌,
  arith, Bool-cases, any,
}
use decent_render.Runner.Environment.{
  Vars, exact, prefixes, is_inherited, child_env, set_var, set_all, apply_child_env, spawn_env,
}

-- The value of a variable in a list of them, the last one counting.
abbrev pub last_of : Text → Vars → Option Text → Option Text
last_of k [] found = found
last_of k (kv ∷ vars) found = last_of k vars (if text_eq kv.0 k then some kv.1 else found)

-- What a process reads under a name.
abbrev pub read_var : Text → Vars → Option Text
read_var k [] = none
read_var k (kv ∷ env) = if text_eq kv.0 k then some kv.1 else read_var k env

read-set_var :
    (k name v : Text) (env : Vars)
    → read_var k (set_var name v env) ≡ (if text_eq name k then some v else read_var k env)
unfolding set_var
read-set_var k name v [] = refl
read-set_var k name v (kv ∷ env) = ground (
  arith,
  read-set_var k name v env,
  text_eq_iff kv.0 name,
  text_eq_iff name k,
  text_eq_iff kv.0 k,
)

read-set_all :
    (k : Text) (vars env : Vars) → read_var k (set_all vars env) ≡ last_of k vars (read_var k env)
unfolding set_all
read-set_all k [] env = refl
read-set_all k (kv ∷ vars) env =
    rw (read-set_all k vars (set_var kv.0 kv.1 env), read-set_var k kv.0 kv.1 env) refl

last_of-child_env :
    (k : Text) (parent : Vars) (found : Option Text)
    → last_of k (child_env parent) found
      ≡ (if is_inherited k then last_of k parent found else found)
unfolding child_env
last_of-child_env k [] found = ground arith
last_of-child_env k (kv ∷ parent) found = ground (
  arith,
  last_of-child_env k parent found,
  last_of-child_env k parent (some kv.1),
  text_eq_sound kv.0 k,
)

starts_with-split : (p s : Text) → starts_with p s ≡ true → (t : Text) × (s ≡ p ++ t)
unfolding starts_with
starts_with-split [] s h = (s, refl)
starts_with-split (a ∷ p) [] h = absurd (cc h)
starts_with-split (a ∷ p) (b ∷ s) h =
    let (t, e) = starts_with-split p s (ground arith) in (t, ground (arith, e))

starts_with-append : (p t : Text) → starts_with p (p ++ t) ≡ true
unfolding starts_with
starts_with-append [] t = refl
starts_with-append (a ∷ p) t = ground (arith, starts_with-append p t)

any-Mem :
    (f : Text → Bool) (xs : List Text) → any f xs ≡ true → (x : Text) × Memᴰ x xs × (f x ≡ true)
any-Mem f [] h = absurd (cc h)
any-Mem f (x ∷ xs) h = elim (Bool-cases (f x)) [
  | inl yes' ↦ (x, Memᴰ.head refl, yes')
  | inr no' ↦ let (y, m, e) = any-Mem f xs (ground arith) in (y, Memᴰ.tail m, e)
]

Mem-any : (f : Text → Bool) (x : Text) (xs : List Text) → Memᴰ x xs → f x ≡ true → any f xs ≡ true
Mem-any f x [] m h = elim m [ ]
Mem-any f x (y ∷ xs) (Memᴰ.head e) h = ground (arith, e, h)
Mem-any f x (y ∷ xs) (Memᴰ.tail m) h = ground (arith, Mem-any f x xs m h)

-- A name of the allowlist, or one with a prefix of it.
abbrev pub IsAllowed : Text → Type 0
IsAllowed k = Memᴰ k exact ⊎ ((p : Text) × (t : Text) × Memᴰ p prefixes × (k ≡ p ++ t))

is_inherited-IsAllowed : (k : Text) → is_inherited k ≡ true → IsAllowed k
unfolding is_inherited
is_inherited-IsAllowed k h = elim (Bool-cases (any (λ e. text_eq e k) exact)) [
  | inl listed ↦
      let (e, m, same) = any-Mem (λ e. text_eq e k) exact listed in
      inl (subst (λ x. Memᴰ x exact) (text_eq_sound e k same) m)
  | inr unlisted ↦
      let (p, m, starts) = any-Mem (λ p. starts_with p k) prefixes (second _ _ unlisted h) in
      let (t, e) = starts_with-split p k starts in inr (p, t, m, e)
]
  where
    second : (a b : Bool) → a ≡ false → (a || b) ≡ true → b ≡ true
    second a b e h = ground arith

IsAllowed-is_inherited : (k : Text) → IsAllowed k → is_inherited k ≡ true
unfolding is_inherited
IsAllowed-is_inherited k (inl m) = left _ _ (Mem-any (λ e. text_eq e k) k exact m (text_eq_refl k))
  where
    left : (a b : Bool) → a ≡ true → (a || b) ≡ true
    left a b e = ground arith
IsAllowed-is_inherited k (inr (p, t, m, e)) =
    right _ _ (Mem-any (λ p. starts_with p k) p prefixes m (rw e (starts_with-append p t)))
  where
    right : (a b : Bool) → b ≡ true → (a || b) ≡ true
    right a b e = ground arith

read-apply :
    (k : Text) (parent : Vars)
    → read_var k (apply_child_env parent [])
      ≡ (if is_inherited k then last_of k parent none else none)
unfolding apply_child_env
read-apply k parent = rw (read-set_all k (child_env parent) []) (last_of-child_env k parent none)

abbrev pub browser_name : Text
browser_name = codes "DECENT_BROWSER_EXECUTABLE"

-- What the child reads under a name, without and with a browser.
abbrev pub Reads : Vars → Text → Option Text → Type 0
Reads parent k found =
    (IsAllowed k × (found ≡ last_of k parent none)) ⊎ ((¬ IsAllowed k) × (found ≡ none))

apply-Reads : (k : Text) (parent : Vars) → Reads parent k (read_var k (apply_child_env parent []))
apply-Reads k parent = elim (Bool-cases (is_inherited k)) [
  | inl passes ↦ inl (is_inherited-IsAllowed k passes, ground (arith, read-apply k parent, passes))
  | inr stopped ↦ inr (
    λ allowed. ground (arith, stopped, IsAllowed-is_inherited k allowed),
    ground (arith, read-apply k parent, stopped),
  )
]

-- What the child reads under a name. With a browser, `DECENT_BROWSER_EXECUTABLE` is its wrapper,
-- whatever the supervisor's environment says. Any other name, and that one without a browser, reads as
-- the supervisor's value if it is on the allowlist or has a prefix of it, and as nothing if not.
pub spawn_env_lem :
    (parent : Vars) (browser : Option Text) (k : Text)
    → ((wrapper : Text) × (browser ≡ some wrapper)
        × (k ≡ codes "DECENT_BROWSER_EXECUTABLE")
        × (read_var k (spawn_env parent browser) ≡ some wrapper))
      ⊎ (((browser ≡ none) ⊎ (k ≢ codes "DECENT_BROWSER_EXECUTABLE"))
          × Reads parent k (read_var k (spawn_env parent browser)))
unfolding spawn_env
spawn_env_lem parent none k = inr (inl refl, apply-Reads k parent)
spawn_env_lem parent (some wrapper) k =
    let set = read-set_var k browser_name wrapper (apply_child_env parent []) in
    elim (Bool-cases (text_eq browser_name k)) [
      | inl same ↦
          inl (wrapper, refl, sym (text_eq_sound browser_name k same), ground (arith, set, same))
      | inr differs ↦ inr (
        inr (λ e. ground (arith, differs, e, text_eq_refl k)),
        subst (λ found. Reads parent k found) (sym (ground (arith, set, differs)))
            (apply-Reads k parent),
      )
    ]
