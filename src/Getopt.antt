-- ===== src/Getopt.antt =====
-- hrt_cbs.c, cpu_hog_cbs.c and bwi-client_server: the loops over the options that `getopt` returns.
use realtime_tests.Prelude.{List, [], ◌∷◌, if◌then◌else◌, Bool, true, false}

-- A part of a program goes on with a value, or exits.
pub data Exits (A : Type 0) : Type 0 where
  goes_on : A → Exits A
  fails : Exits A
  succeeds : Exits A

abbrev pub fails_if : {A : Type 0} → Bool → A → Exits A
fails_if bad x = if bad then fails else goes_on x

abbrev pub then_options : {A : Type 0} → (A → Exits A) → Exits A → Exits A
then_options next (goes_on x) = next x
then_options next fails = fails
then_options next succeeds = succeeds

unfoldable pub get_options : {O A : Type 0} → (O → A → Exits A) → List O → A → Exits A
get_options set_option [] x = goes_on x
get_options set_option (o ∷ os) x = then_options (get_options set_option os) (set_option o x)

-- What holds of the value, if the program goes on.
abbrev pub Keeps : {A : Type 0} → (A → Type 0) → Exits A → Type 0
Keeps P (goes_on x) = P x
Keeps P fails = Unit
Keeps P succeeds = Unit

then_options-Keeps :
    {A : Type 0} (P : A → Type 0) (next : A → Exits A) (x : Exits A)
    → Keeps P x
    → ((a : A) → P a → Keeps P (next a))
    → Keeps P (then_options next x)
then_options-Keeps P next (goes_on a) h f = f a h
then_options-Keeps P next fails h f = tt
then_options-Keeps P next succeeds h f = tt

-- What each option keeps, all of them keep.
pub get_options-Keeps :
    {O A : Type 0} (P : A → Type 0) (set_option : O → A → Exits A)
    → ((o : O) (a : A) → P a → Keeps P (set_option o a))
    → (os : List O) (a : A) → P a
    → Keeps P (get_options set_option os a)
unfolding get_options
get_options-Keeps P set_option keeps [] a h = h
get_options-Keeps P set_option keeps (o ∷ os) a h =
    then_options-Keeps P (get_options set_option os) (set_option o a) (keeps o a h)
      (get_options-Keeps P set_option keeps os)

-- A test that fails ends the program.
pub fails_if-Keeps :
    {A : Type 0} (P : A → Type 0) (next : A → Exits A) (bad : Bool) (x : A)
    → Keeps P (next x)
    → Keeps P (then_options next (fails_if bad x))
fails_if-Keeps P next true x h = tt
fails_if-Keeps P next false x h = h
