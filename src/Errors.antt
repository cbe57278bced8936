-- ===== src/Errors.antt =====
-- The translation between GError and Python exceptions, glib/pyglib.c.
pub mod RoundTrip
use debian_pygobject.Base.{
  ℕ, ◌==◌, Bool, true, false, Option, none, some, List, [], ◌∷◌, if◌then◌else◌, CString, codes,
}
use debian_pygobject.CInt.{ℤ, pos, negsuc, zeq, to_int, to_long}

pub record GError : Type 0 where
  pub domain : ℕ
  pub code : ℤ
  pub message : Option CString

-- The class glib.GError, its subclasses that are registered for a domain, and other classes.
pub data ExceptionClass : Type 0 where
  gerror_exception : ExceptionClass
  registered other_class : ℕ → ExceptionClass

unfoldable pub is_gerror : ExceptionClass → Bool
is_gerror gerror_exception = true
is_gerror (registered n) = true
is_gerror (other_class n) = false

-- An attribute of an exception, as the C code tells its values apart.
pub data Attr : Type 0 where
  missing py_none other : Attr
  text : CString → Attr
  int : ℤ → Attr

pub record Exception : Type 0 where
  pub class_of : ExceptionClass
  pub domain : Attr
  pub code : Attr
  pub message : Attr

-- The exception table, the pending exception, the exceptions that were printed, and those that the
-- C code still has a reference to.
abbrev pub Table : Type 0
Table = Option (List (ℤ × ExceptionClass))

pub record World : Type 0 where
  pub exception_table : Table
  pub pending : Option Exception
  pub printed : List Exception
  pub unreleased : List Exception

unfoldable pub find_exception : ℤ → List (ℤ × ExceptionClass) → Option ExceptionClass
find_exception k [] = none
find_exception k ((j, c) ∷ entries) =
    let rest = find_exception k entries in if zeq j k then some c else rest

unfoldable pub set_exception :
    ℤ → ExceptionClass → List (ℤ × ExceptionClass) → List (ℤ × ExceptionClass)
set_exception k c [] = (k, c) ∷ []
set_exception k c ((j, d) ∷ entries) =
    let rest = set_exception k c entries in if zeq j k then (j, c) ∷ entries else (j, d) ∷ rest

-- pyglib_register_exception_for_domain; `n` is the address of the new class.
unfoldable pub register_exception_for_domain : ℕ → ℤ → Table → ExceptionClass × Table
unfolding set_exception
register_exception_for_domain n error_domain none =
    (registered n, some (set_exception error_domain (registered n) []))
register_exception_for_domain n error_domain (some entries) =
    (registered n, some (set_exception error_domain (registered n) entries))

-- The class of the exception for a domain.
unfoldable pub exception_class : Table → ℕ → ExceptionClass
unfolding find_exception
exception_class none domain = gerror_exception
exception_class (some entries) domain = elim (find_exception (pos domain) entries) [
  | none ↦ gerror_exception
  | some c ↦ c
]

abbrev pub message_attr : Option CString → Attr
message_attr none = py_none
message_attr (some m) = text m

-- pyglib_error_check with `*error`: True if there was one, and `*error` afterwards.
-- g_quark_to_string is a parameter.
unfoldable pub error_check : (ℕ → CString) → Option GError → World → Bool × (Option GError × World)
unfolding exception_class
error_check quark_to_string none w = (false, (none, w))
error_check quark_to_string (some e) w = (
  true,
  (
    none,
    record w {
      pending = some (record {
        class_of = exception_class (w.exception_table) (e.domain);
        domain = if e.domain == 0 then py_none else text (quark_to_string (e.domain));
        code = int (e.code);
        message = message_attr (e.message);
      });
    },
  ),
)

-- The exception for a GError instance with a wrong attribute, which is printed at once.
abbrev pub value_error : Exception
value_error = record {
  class_of = other_class 0;
  domain = missing;
  code = missing;
  message = missing;
}

abbrev pub bad_gerror : CString → (CString → ℕ) → World → ℤ × (Option GError × World)
bad_gerror message quark_from_string w = (
  negsuc 1,
  (
    some (record {
      domain = quark_from_string (codes "pyglib");
      code = pos 0;
      message = some message;
    }),
    record w { printed = value_error ∷ w.printed },
  ),
)

-- The attributes of a GError instance; without a reference to the exception if they are wrong.
unfoldable pub translate : (CString → ℕ) → Exception → World → ℤ × (Option GError × World)
translate quark_from_string v w = elim v.message [
  | text m ↦ elim v.domain [
    | text d ↦ elim v.code [
      | int c ↦ (
        negsuc 0,
        (
          some (record {
            domain = quark_from_string d;
            code = to_int (to_long c);
            message = some m;
          }),
          record w { unreleased = v ∷ w.unreleased },
        ),
      )
      | _ ↦
          bad_gerror (codes "glib.GError instances must have a 'code' int attribute")
            quark_from_string w
    ]
    | _ ↦
        bad_gerror (codes "glib.GError instances must have a 'domain' string attribute")
          quark_from_string w
  ]
  | _ ↦
      bad_gerror (codes "glib.GError instances must have a 'message' string attribute")
        quark_from_string w
]

unfoldable pub check_pending :
    (CString → ℕ) → Option Exception → World → ℤ × (Option GError × World)
unfolding translate is_gerror
check_pending quark_from_string none w = (pos 0, (none, w))
check_pending quark_from_string (some v) w = elim (is_gerror (v.class_of)) [
  | false ↦ (negsuc 1, (none, record w { printed = v ∷ w.printed }))
  | true ↦ translate quark_from_string v w
]

-- pyglib_gerror_exception_check: the result, the GError, and the world.
unfoldable pub gerror_exception_check : (CString → ℕ) → World → ℤ × (Option GError × World)
unfolding check_pending
gerror_exception_check quark_from_string w =
    check_pending quark_from_string (w.pending) (record w { pending = none })
