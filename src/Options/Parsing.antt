-- ===== src/Options/Parsing.antt =====
-- arg_func of glib/pygoptiongroup.c, which runs the callback of a group, and parse of
-- glib/pygoptioncontext.c. What becomes of exceptions is that of Errors.
use debian_pygobject.Base.{
  ℕ, ◌≡◌, refl, ap, ◌∙◌, Bool, true, false, not, ◌&&◌, Option, none, some, is_some, List, [], ◌∷◌,
  ◌==◌, CString, arith,
}
use debian_pygobject.CInt.{ℤ, negsuc, zeq, InInt, to_int-InInt, to_long-InLong}
use debian_pygobject.Errors.{
  GError, Exception, ExceptionClass, gerror_exception, registered, other_class, is_gerror, Attr,
  text, int, World, error_check, exception_class, gerror_exception_check, check_pending, translate,
}
use debian_pygobject.Errors.RoundTrip.{InInt-InLong}
use debian_pygobject.Options.{OptionError, bad_argument, expected_list}

-- The arguments of the callback: the name of the option, its value or None, and the wrapper.
unfoldable pub callback_args : CString → Option CString → ℕ → CString × (Option CString × ℕ)
callback_args option_name value self = (option_name, (value, self))

-- After the callback: whether it returned an object, and the world with the exception that it raised if
-- it did not. The result, *error and the world.
unfoldable pub arg_func : (CString → ℕ) → Bool → World → Bool × (Option GError × World)
unfolding gerror_exception_check
arg_func quark_from_string true w = (true, (none, w))
arg_func quark_from_string false w =
    let (status, rest) = gerror_exception_check quark_from_string w in
    (not (zeq status (negsuc 0)), rest)

-- The copies of the items of argv; an item that is no string ends the loop.
unfoldable pub copy_argv : List (Option CString) → Option (List CString)
copy_argv [] = some []
copy_argv (none ∷ xs) = none
copy_argv (some s ∷ xs) =
    let rest = copy_argv xs in elim rest [ none ↦ none | some ss ↦ some (s ∷ ss) ]

-- The list of what is left, an exception that is pending in the world, or another one.
pub data Parsed : Type 0 where
  parsed : List CString → World → Parsed
  raised : World → Parsed
  refused : OptionError → World → Parsed
  -- what _PyUnicode_AsString raises for an item that is no string
  no_text : World → Parsed

-- `context_parse` is g_option_context_parse: the world after the callbacks, with the error or with
-- what is left of argv. The argument is `none` if it does not parse, and `some none` if it is no list.
unfoldable pub parse :
    (ℕ → CString)
    → (List CString → World → (Option GError × List CString) × World)
    → Option (Option (List (Option CString)))
    → World
    → Parsed
unfolding copy_argv error_check
parse quark_to_string context_parse none w = refused bad_argument w
parse quark_to_string context_parse (some none) w = refused expected_list w
parse quark_to_string context_parse (some (some argv)) w = elim (copy_argv argv) [
  | none ↦ no_text w
  | some args ↦
      let (r, after) = context_parse args w in
      elim (r.0) [
        | none ↦ parsed r.1 after
        | some e ↦ raised (error_check quark_to_string (some e) after).1.1
      ]
]

-- The attributes of an exception that make a GError.
abbrev pub is_text : Attr → Bool
is_text (text s) = true
is_text a = false

abbrev pub is_int : Attr → Bool
is_int (int z) = true
is_int a = false

abbrev pub has_attributes : Exception → Bool
has_attributes v = is_text v.message && (is_text v.domain && is_int v.code)

-- The result for an exception in a world where it is not pending any more.
abbrev pub Reported : World → Exception → ℤ × (Option GError × World) → Type 0
Reported w v r =
    (not (zeq r.0 (negsuc 0)) ≡ not (is_gerror v.class_of && has_attributes v))
    × (is_some r.1.0 ≡ is_gerror v.class_of)
    × (r.1.1.pending ≡ none)
    × (is_gerror v.class_of ≡ false → r.1.1.printed ≡ v ∷ w.printed)

module _ (quark_from_string : CString → ℕ) where
  check_pending-Reported :
      (c : ExceptionClass) (message domain code : Attr) (w : World)
      → w.pending ≡ none
      → let v : Exception = record {
        class_of = c;
        domain = domain;
        code = code;
        message = message;
      } in
        Reported w v (check_pending quark_from_string (some v) w)
  unfolding check_pending translate is_gerror zeq
  check_pending-Reported (other_class n) message domain code w e = (refl, refl, e, λ h. refl)
  check_pending-Reported gerror_exception message domain code w e = ground arith
  check_pending-Reported (registered n) message domain code w e = ground arith

module _ (quark_from_string : CString → ℕ) (w : World) where
  -- If the callback of an option raises, arg_func tells GLib of a failure exactly if the exception is a
  -- GError with its three attributes; for a GError without them it gives GLib an error and yet tells it
  -- of success, and any other exception is printed, and lost.
  pub arg_func_lem :
      (v : Exception)
      → w.pending ≡ some v
      → let r = arg_func quark_from_string false w in
        (r.0 ≡ not (is_gerror v.class_of && has_attributes v))
        × (is_some r.1.0 ≡ is_gerror v.class_of)
        × (r.1.1.pending ≡ none)
        × (is_gerror v.class_of ≡ false → r.1.1.printed ≡ v ∷ w.printed)
  unfolding arg_func gerror_exception_check
  arg_func_lem v e = rw e (
      check_pending-Reported quark_from_string v.class_of v.message v.domain v.code
        (record w { pending = none }) refl)

translated :
    (q : CString → ℕ) (d m : CString) (z : ℤ) (c : ExceptionClass) (w : World)
    → InInt z
    → is_gerror c ≡ true
    → let v : Exception = record {
      class_of = c;
      domain = text d;
      code = int z;
      message = text m;
    } in
      check_pending q (some v) w ≡ (
        negsuc 0,
        (
          some (record { domain = q d; code = z; message = some m }),
          record w { unreleased = v ∷ w.unreleased },
        ),
      )
unfolding check_pending translate
translated q d m z c w fits sub =
    rw (sub, to_long-InLong z (InInt-InLong z fits), to_int-InInt z fits, check_pending, translate)

arg_func-translated :
    (q : CString → ℕ) (d m : CString) (z : ℤ) (c : ExceptionClass) (w : World)
    → InInt z
    → is_gerror c ≡ true
    → let v : Exception = record {
      class_of = c;
      domain = text d;
      code = int z;
      message = text m;
    } in
      arg_func q false (record w { pending = some v }) ≡ (
        false,
        (
          some (record { domain = q d; code = z; message = some m }),
          record w { pending = none; unreleased = v ∷ w.unreleased },
        ),
      )
unfolding arg_func gerror_exception_check zeq
arg_func-translated q d m z c w fits sub =
    ap (λ (r : ℤ × (Option GError × World)). (not (zeq r.0 (negsuc 0)), r.1))
      (translated q d m z c (record w { pending = none }) fits sub)

-- What parse makes of the end of a callback, if the parser ends with it.
abbrev outcome : (ℕ → CString) → Bool × (Option GError × World) → Parsed
outcome quark_to_string r = elim r.1.0 [
  | none ↦ parsed [] r.1.1
  | some e ↦ raised (error_check quark_to_string (some e) r.1.1).1.1
]

parse-outcome :
    (quark_to_string : ℕ → CString) (argv : List (Option CString)) (args : List CString) (w : World)
    (r : Bool × (Option GError × World))
    → copy_argv argv ≡ some args
    → parse quark_to_string (λ a u. ((r.1.0, []), r.1.1)) (some (some argv)) w
      ≡ outcome quark_to_string r
unfolding parse
parse-outcome quark_to_string argv args w r copied = rw (copied, parse) refl

outcome-raised :
    (q : CString → ℕ) (quark_to_string : ℕ → CString) (w : World) (d m : CString) (z : ℤ)
    (c : ExceptionClass)
    → let v : Exception = record {
      class_of = c;
      domain = text d;
      code = int z;
      message = text m;
    } in
      exception_class w.exception_table (q d) ≡ c
      → quark_to_string (q d) ≡ d
      → (q d == 0) ≡ false
      → raised
          (error_check quark_to_string
            (some (record { domain = q d; code = z; message = some m }))
            (record w { pending = none; unreleased = v ∷ w.unreleased })).1.1
        ≡ raised (record w { pending = some v; unreleased = v ∷ w.unreleased })
unfolding error_check
outcome-raised q quark_to_string w d m z c class named is_quark = rw (class, named, is_quark) refl

-- An exception that a callback raises, is determined by its class and attributes and becomes the error
-- of the parser is the exception that parse raises; it was handed to GLib as a failure with the domain,
-- the code and the message.
pub parse-arg_func :
    (q : CString → ℕ) (quark_to_string : ℕ → CString) (w : World) (d m : CString) (z : ℤ)
    (c : ExceptionClass) (argv : List (Option CString)) (args : List CString)
    → let v : Exception = record {
      class_of = c;
      domain = text d;
      code = int z;
      message = text m;
    } in
      exception_class w.exception_table (q d) ≡ c
      → is_gerror c ≡ true
      → quark_to_string (q d) ≡ d
      → (q d == 0) ≡ false
      → InInt z
      → copy_argv argv ≡ some args
      → let r : Bool × (Option GError × World) = arg_func q false (record w { pending = some v }) in
        (r.0 ≡ false)
        × (parse quark_to_string (λ a u. ((r.1.0, []), r.1.1)) (some (some argv)) w
            ≡ raised (record w { pending = some v; unreleased = v ∷ w.unreleased }))
parse-arg_func q quark_to_string w d m z c argv args class sub named is_quark fits copied =
    let v : Exception = record { class_of = c; domain = text d; code = int z; message = text m } in
    let told = arg_func-translated q d m z c w fits sub in
    (
      ap (λ r. r.0) told,
      parse-outcome quark_to_string argv args w (arg_func q false (record w { pending = some v }))
            copied
          ∙ (ap (outcome quark_to_string) told
              ∙ outcome-raised q quark_to_string w d m z c class named is_quark),
    )
