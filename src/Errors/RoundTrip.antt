-- ===== src/Errors/RoundTrip.antt =====
-- A GError that becomes an exception, and the exception that becomes a GError.
use debian_pygobject.Base.{
  ℕ, ◌==◌, ◌&&◌, ◌≡◌, refl, ap, sym, ◌∙◌, Bool, true, false, Option, none, some, List, [], ◌∷◌,
  if◌then◌else◌, CString, arith, Bool-cases, inl, inr, Option-cases, ◌⊎◌,
}
use debian_pygobject.CInt.{
  ℤ, pos, negsuc, zeq, InInt, InLong, to_int-InInt, to_long-InLong, zeq_iff,
}
use debian_pygobject.Errors.{
  GError, ExceptionClass, gerror_exception, registered, is_gerror, Exception, Table, World,
  find_exception, set_exception, register_exception_for_domain, exception_class, error_check,
  gerror_exception_check, check_pending, translate, text, py_none, int,
}

pub InInt-InLong : (z : ℤ) → InInt z → InLong z
InInt-InLong (pos n) h = omega arith
InInt-InLong (negsuc n) h = omega arith

-- Every class in the table is a subclass of glib.GError.
abbrev pub are_gerrors : List (ℤ × ExceptionClass) → Bool
are_gerrors [] = true
are_gerrors ((k, c) ∷ entries) = is_gerror c && are_gerrors entries

abbrev pub IsRegistered : Table → Type 0
IsRegistered none = true ≡ true
IsRegistered (some entries) = are_gerrors entries ≡ true

find-are_gerrors :
    (k : ℤ) (entries : List (ℤ × ExceptionClass))
    → are_gerrors entries ≡ true
    → (c : ExceptionClass) → find_exception k entries ≡ some c
    → is_gerror c ≡ true
unfolding find_exception
find-are_gerrors k [] ok c e = ground (arith, e)
find-are_gerrors k ((j, d) ∷ entries) ok c e =
    let rest : are_gerrors entries ≡ true = ground (arith, ok) in
    ground (arith, ok, e, find-are_gerrors k entries rest c)

exception_class-is_gerror :
    (t : Table) (domain : ℕ) → IsRegistered t → is_gerror (exception_class t domain) ≡ true
unfolding exception_class is_gerror
exception_class-is_gerror none domain ok = refl
exception_class-is_gerror (some entries) domain ok =
    elim (Option-cases (find_exception (pos domain) entries)) [
      | inl out ↦ rw (out, exception_class) refl
      | inr (c, here) ↦ rw (here, exception_class) (find-are_gerrors (pos domain) entries ok c here)
    ]

find-set :
    (k : ℤ) (c : ExceptionClass) (j : ℤ) (entries : List (ℤ × ExceptionClass))
    → find_exception j (set_exception k c entries)
      ≡ (if zeq k j then some c else find_exception j entries)
unfolding find_exception set_exception
find-set k c j [] = refl
find-set k c j ((i, d) ∷ entries) = elim (Bool-cases (zeq i k)) [
  | inl h ↦
      let ik : i ≡ k = (zeq_iff i k).0 h in
      rw (h, ik) (elim (Bool-cases (zeq k j)) [ inl e ↦ rw e refl | inr e ↦ rw e refl ])
  | inr h ↦
      rw (h, find-set k c j entries)
        (elim (Bool-cases (zeq k j)) [
          | inl e ↦
              let kj : k ≡ j = (zeq_iff k j).0 e in
              let ij : zeq i j ≡ false = ap (zeq i) (sym kj) ∙ h in rw (e, ij) refl
          | inr e ↦ rw e refl
        ])
]

-- Registering a class for a domain makes it the class for that domain, and changes no other.
pub register-exception_class :
    (n d d' : ℕ) (t : Table)
    → exception_class ((register_exception_for_domain n (pos d) t).1) d'
      ≡ (if d == d' then registered n else exception_class t d')
unfolding exception_class register_exception_for_domain zeq
register-exception_class n d d' none = elim (Bool-cases (d == d')) [
  | inl e ↦ rw (e, exception_class) refl
  | inr e ↦ rw (e, exception_class) refl
]
register-exception_class n d d' (some entries) =
    ap (λ o. elim o [ none ↦ gerror_exception | some c ↦ c ])
      (find-set (pos d) (registered n) (pos d') entries)
    ∙ elim (Bool-cases (d == d')) [ inl e ↦ rw e refl | inr e ↦ rw e refl ]

-- The exception for a GError.
abbrev pub exception_for : (ℕ → CString) → Table → GError → Exception
exception_for to_string t e = record {
  class_of = exception_class t (e.domain);
  domain = text (to_string (e.domain));
  code = int (e.code);
  message = elim e.message [ none ↦ py_none | some m ↦ text m ];
}

abbrev pub gerror : ℕ → ℤ → Option CString → GError
gerror d c m = record { domain = d; code = c; message = m }

module _ (to_string : ℕ → CString) (from_string : CString → ℕ) (w : World) where
  -- A GError with a domain and a message comes back as it was from the exception that it is turned
  -- into, given that every registered class is a subclass of glib.GError and that the quark of the
  -- string of a quark is the quark; no exception is pending then, but a reference to it is kept.
  pub error_check-gerror_exception_check :
      (d : ℕ) (c : ℤ) (m : CString)
      → IsRegistered (w.exception_table)
      → (d == 0) ≡ false
      → InInt c
      → from_string (to_string d) ≡ d
      → gerror_exception_check from_string
          ((error_check to_string (some (gerror d c (some m))) w).1.1)
        ≡ (
          negsuc 0,
          (
            some (gerror d c (some m)),
            record w {
              pending = none;
              unreleased =
                  exception_for to_string (w.exception_table) (gerror d c (some m)) ∷ w.unreleased;
            },
          ),
        )
  unfolding error_check gerror_exception_check check_pending translate
  error_check-gerror_exception_check d c m ok named small quark =
      rw
        (
          exception_class-is_gerror (w.exception_table) d ok,
          check_pending,
          named,
          translate,
          quark,
          to_long-InLong c (InInt-InLong c small),
          to_int-InInt c small,
        )
        (rw named refl)

  -- A GError without a message or with the domain 0 does not come back: the exception is refused,
  -- with the result -2.
  pub error_check_lost :
      (d : ℕ) (c : ℤ) (m : Option CString)
      → IsRegistered (w.exception_table)
      → (d ≡ 0) ⊎ (m ≡ none)
      → (gerror_exception_check from_string ((error_check to_string (some (gerror d c m)) w).1.1)).0
        ≡ negsuc 1
  unfolding error_check gerror_exception_check check_pending translate
  error_check_lost d c none ok lost =
      rw (exception_class-is_gerror (w.exception_table) d ok, check_pending) refl
  error_check_lost d c (some m) ok (inl zero_domain) =
      rw (exception_class-is_gerror (w.exception_table) d ok, check_pending)
        (rw (zero_domain, translate) refl)
  error_check_lost d c (some m) ok (inr no_message) = ground (arith, no_message)
