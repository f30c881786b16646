-- ===== src/Runner/Environment.antt =====
-- The environment of the runner child (`child_env` and `apply_child_env` of
-- crates/supervisor-core/src/runner.rs). An environment is the list of its variables with distinct
-- names; `Command::env` replaces a variable or adds it.
pub mod Allowed
use decent_render.Prelude.{
  ℕ, ◌≡◌, ◌≢◌, refl, sym, Bool, true, false, ◌||◌, List, [], ◌∷◌, ◌++◌, Option, none, some, Text,
  codes, text_eq, text_eq_refl, text_eq_iff, text_eq_sound, starts_with, if◌then◌else◌, arith,
  Bool-cases, any, retain,
}

abbrev pub Vars : Type 0
Vars = List (Text × Text)

abbrev pub exact : List Text
exact =
    codes "PATH"
    ∷ codes "HOME"
    ∷ codes "TMPDIR"
    ∷ codes "TMP"
    ∷ codes "TEMP"
    ∷ codes "LANG"
    ∷ codes "LANGUAGE"
    ∷ codes "USER"
    ∷ codes "LOGNAME"
    ∷ codes "SHELL"
    ∷ codes "TZ"
    ∷ codes "DISPLAY"
    ∷ codes "WAYLAND_DISPLAY"
    ∷ codes "LD_LIBRARY_PATH"
    ∷ codes "SSL_CERT_FILE"
    ∷ codes "SSL_CERT_DIR"
    ∷ codes "NODE_EXTRA_CA_CERTS"
    ∷ codes "HTTP_PROXY"
    ∷ codes "HTTPS_PROXY"
    ∷ codes "NO_PROXY"
    ∷ codes "http_proxy"
    ∷ codes "https_proxy"
    ∷ codes "no_proxy"
    ∷ []

abbrev pub prefixes : List Text
prefixes =
    codes "LC_"
    ∷ codes "XDG_"
    ∷ codes "FONTCONFIG_"
    ∷ codes "DECENT_"
    ∷ codes "REMOTION_"
    ∷ codes "CHROME_"
    ∷ codes "PUPPETEER_"
    ∷ []

-- The test of the filter.
unfoldable pub is_inherited : Text → Bool
is_inherited k = any (λ e. text_eq e k) exact || any (λ p. starts_with p k) prefixes

pub child_env : Vars → Vars
child_env parent = retain (λ kv. is_inherited kv.0) parent

-- `Command::env`.
pub set_var : Text → Text → Vars → Vars
set_var k v [] = (k, v) ∷ []
set_var k v (kv ∷ env) = if text_eq kv.0 k then (k, v) ∷ env else kv ∷ set_var k v env

-- The loop of `apply_child_env`.
pub set_all : Vars → Vars → Vars
unfolding set_var
set_all [] env = env
set_all (kv ∷ vars) env = set_all vars (set_var kv.0 kv.1 env)

-- The environment is cleared first, so what the command had before is lost.
pub apply_child_env : Vars → Vars → Vars
unfolding set_all child_env
apply_child_env parent before = set_all (child_env parent) []

-- The environment of the spawned child; with a browser, the wrapper is set behind the allowlist.
pub spawn_env : Vars → Option Text → Vars
unfolding apply_child_env set_var
spawn_env parent none = apply_child_env parent []
spawn_env parent (some wrapper) =
    set_var (codes "DECENT_BROWSER_EXECUTABLE") wrapper (apply_child_env parent [])
