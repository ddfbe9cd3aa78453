-- ===== src/FakeFs/Arguments/Uname.antt =====
-- `_handle_uname` of src/infra/fake_fs_data_handler.py, on the tokens behind the command.
use honey_mind.Prelude.{
  ℕ, Text, codes, starts_with, drop, join, keep, any_of, map, Bool, ◌||◌, ◌==◌, space, newline,
  List, [], ◌∷◌, ◌++◌, append_assoc, append-nil, if◌then◌else◌, Option, none, some, ◌≡◌, refl,
  arith, Dict, lookup, ap, sym, ◌∙◌,
}

abbrev pub long_opts : Dict ℕ
long_opts =
    (codes "--kernel-name", b's')
    ∷ (codes "--nodename", b'n')
    ∷ (codes "--kernel-release", b'r')
    ∷ (codes "--kernel-version", b'v')
    ∷ (codes "--machine", b'm')
    ∷ (codes "--processor", b'p')
    ∷ (codes "--hardware-platform", b'i')
    ∷ (codes "--operating-system", b'o')
    ∷ (codes "--all", b'a')
    ∷ []

-- what one argument adds to the set `active`
unfoldable pub flags_of : Option ℕ → Text → List ℕ
flags_of (some f) arg = f ∷ []
flags_of none arg =
    if starts_with arg (codes "--")
    then []
    else if starts_with arg (codes "-")
    then drop 1 arg
    else []

unfoldable pub active_flags : List Text → List ℕ
unfolding flags_of
active_flags [] = []
active_flags (arg ∷ args) = flags_of (lookup arg long_opts) arg ++ active_flags args

-- the values of the fields, by their letter
pub record Machine : Type 0 where
  pub field_value : ℕ → Text

abbrev pub field_order : List ℕ
field_order = b's' ∷ b'n' ∷ b'r' ∷ b'v' ∷ b'm' ∷ b'p' ∷ b'i' ∷ b'o' ∷ []

unfoldable pub is_active : List ℕ → ℕ → Bool
is_active active f = any_of (λ g. g == f) active

-- `-a` stands for all fields, and no flag for `-s`
unfoldable pub is_shown : List ℕ → ℕ → Bool
unfolding is_active
is_shown [] f = f == b's'
is_shown (g ∷ active) f = is_active (g ∷ active) b'a' || is_active (g ∷ active) f

unfoldable pub handle_uname : Machine → List Text → Text
unfolding active_flags
handle_uname m args =
    join (space ∷ []) (map m.field_value (keep (is_shown (active_flags args)) field_order))
    ++ newline ∷ []

active_flags-append :
    (xs ys : List Text) → active_flags (xs ++ ys) ≡ active_flags xs ++ active_flags ys
unfolding active_flags
active_flags-append [] ys = refl
active_flags-append (x ∷ xs) ys =
    ap (λ t. flags_of (lookup x long_opts) x ++ t) (active_flags-append xs ys)
    ∙ sym (append_assoc (flags_of (lookup x long_opts) x) (active_flags xs) (active_flags ys))

is_active-append :
    (xs ys : List ℕ) (f : ℕ) → is_active (xs ++ ys) f ≡ (is_active xs f || is_active ys f)
unfolding is_active
is_active-append [] ys f = refl
is_active-append (x ∷ xs) ys f = ground (arith, is_active-append xs ys f)

is_active-swap : (xs ys : List ℕ) (f : ℕ) → is_active (xs ++ ys) f ≡ is_active (ys ++ xs) f
is_active-swap xs ys f = ground (arith, is_active-append xs ys f, is_active-append ys xs f)

is_shown-swap : (xs ys : List ℕ) (f : ℕ) → is_shown (xs ++ ys) f ≡ is_shown (ys ++ xs) f
unfolding is_shown
is_shown-swap [] ys f = ap (λ s. is_shown s f) (sym (append-nil ys))
is_shown-swap (x ∷ xs) [] f = ap (λ s. is_shown (x ∷ s) f) (append-nil xs)
is_shown-swap (x ∷ xs) (y ∷ ys) f =
    ap (λ b. b || is_active ((x ∷ xs) ++ y ∷ ys) f) (is_active-swap (x ∷ xs) (y ∷ ys) b'a')
    ∙ ap (λ b. is_active ((y ∷ ys) ++ x ∷ xs) b'a' || b) (is_active-swap (x ∷ xs) (y ∷ ys) f)

keep-ext : (p q : ℕ → Bool) → ((f : ℕ) → p f ≡ q f) → (fs : List ℕ) → keep p fs ≡ keep q fs
keep-ext p q same [] = refl
keep-ext p q same (f ∷ fs) =
    ap (λ b. if b then f ∷ keep p fs else keep p fs) (same f)
    ∙ ap (λ r. if q f then f ∷ r else r) (keep-ext p q same fs)

-- `uname` prints the same line whichever of two groups of options comes first.
pub handle_uname-swap :
    (m : Machine) (xs ys : List Text) → handle_uname m (xs ++ ys) ≡ handle_uname m (ys ++ xs)
unfolding handle_uname
handle_uname-swap m xs ys =
    ap (λ fs. join (space ∷ []) (map m.field_value fs) ++ newline ∷ [])
      (keep-ext (is_shown (active_flags (xs ++ ys))) (is_shown (active_flags (ys ++ xs))) same
        field_order)
  where
    same : (f : ℕ) → is_shown (active_flags (xs ++ ys)) f ≡ is_shown (active_flags (ys ++ xs)) f
    same f =
        ap (λ s. is_shown s f) (active_flags-append xs ys)
        ∙ is_shown-swap (active_flags xs) (active_flags ys) f
        ∙ ap (λ s. is_shown s f) (sym (active_flags-append ys xs))
