-- ===== src/Registration/NewSignals.antt =====
-- add_signals, create_signal and override_signal of gobject/gobjectmodule.c: the `__gsignals__` of a
-- class.
use debian_pygobject.Base.{
  ℕ, Bool, true, not, Option, none, some, List, [], ◌∷◌, ◌++◌, ◌==◌, if◌then◌else◌, CString, codes,
  bytes_eq,
}
use debian_pygobject.Values.{Glib, TypeArg}
use debian_pygobject.Values.TypeFrom.{type_from_object}
use debian_pygobject.Signals.ClassClosure.{underscores}

-- The accumulator of a signal: none, the function of gobject that stands for GLib's own, or another
-- object, which can be called or not, with its data.
pub data Accumulator : Type 0 where
  no_accumulator true_handled : Accumulator
  python_accumulator : ℕ → Bool → Option ℕ → Accumulator

-- The tuple that describes a signal; the types of the parameters are `none` if they are no sequence.
pub record SignalSpec : Type 0 where
  pub flags : ℕ
  pub return_type : TypeArg
  pub param_types : Option (List TypeArg)
  pub accumulator : Accumulator

-- A value of `__gsignals__`: None, a string, a tuple, or anything else.
pub data SignalValue : Type 0 where
  none_value other_value : SignalValue
  string_value : CString → SignalValue
  spec_value : SignalSpec → SignalValue

pub data RegistrationError : Type 0 where
  not_dict bad_key bad_format not_callable bad_type not_sequence : RegistrationError
  cannot_create_signal unknown_signal cannot_create_type bad_properties class_init_failed :
      RegistrationError

pub data Result {ℓ} (A : Type ℓ) : Type ℓ where
  ok : A → Result A
  err : RegistrationError → Result A

-- What GLib is told: g_signal_newv with the name, the flags, the accumulator, the type of the result
-- and those of the parameters; and g_signal_override_class_closure with the id.
pub data SignalCall : Type 0 where
  new_signal : CString → ℕ → Accumulator → ℕ → List ℕ → SignalCall
  overrides : ℕ → SignalCall

-- The loop over the types of the parameters: one that is no type ends it.
unfoldable pub read_types : Glib → List TypeArg → Option (List ℕ)
unfolding type_from_object
read_types g [] = some []
read_types g (a ∷ as_) =
    let rest = read_types g as_ in
    let t = type_from_object g a in
    if t == 0 then none else elim rest [ none ↦ none | some ts ↦ some (t ∷ ts) ]

-- `py_accum && py_accum != Py_None && !PyCallable_Check(py_accum)`
unfoldable pub can_accumulate : Accumulator → Bool
can_accumulate no_accumulator = true
can_accumulate true_handled = true
can_accumulate (python_accumulator a callable data_) = callable

-- `creates` tells whether g_signal_newv gives an id other than 0.
unfoldable pub create_signal : Glib → (CString → Bool) → CString → SignalSpec → Result SignalCall
unfolding can_accumulate read_types
create_signal g creates name s =
    if not (can_accumulate s.accumulator)
    then err not_callable
    else if type_from_object g s.return_type == 0
    then err bad_type
    else elim s.param_types [
      | none ↦ err not_sequence
      | some args ↦ elim (read_types g args) [
        | none ↦ err bad_type
        | some ts ↦
            if creates name
            then ok (new_signal name s.flags s.accumulator (type_from_object g s.return_type) ts)
            else err cannot_create_signal
      ]
    ]

-- `lookup` is g_signal_lookup: 0 if the type has no such signal.
unfoldable pub override_signal : (CString → ℕ) → CString → Result SignalCall
override_signal lookup name =
    if lookup name == 0 then err unknown_signal else ok (overrides (lookup name))

-- One round of the loop: what GLib is told, and the entry for the dict of overridden signals.
pub record Added : Type 0 where
  pub calls : List SignalCall
  pub overridden : List (CString × CString)

unfoldable pub overriding : (CString → ℕ) → CString → Result Added
unfolding override_signal underscores
overriding lookup name = elim (override_signal lookup name) [
  | err f ↦ err f
  | ok call ↦ ok (record { calls = call ∷ []; overridden = (underscores name, name) ∷ [] })
]

unfoldable pub creating : Glib → (CString → Bool) → CString → SignalSpec → Result Added
unfolding create_signal
creating g creates name s = elim (create_signal g creates name s) [
  | err f ↦ err f
  | ok call ↦ ok (record { calls = call ∷ []; overridden = [] })
]

unfoldable pub add_signal :
    Glib → (CString → Bool) → (CString → ℕ) → CString → SignalValue → Result Added
unfolding overriding creating
add_signal g creates lookup name none_value = overriding lookup name
add_signal g creates lookup name (string_value s) =
    if bytes_eq s (codes "override") then overriding lookup name else err bad_format
add_signal g creates lookup name (spec_value s) = creating g creates name s
add_signal g creates lookup name other_value = err bad_format

-- PyDict_SetItemString
unfoldable pub set_text : CString → CString → List (CString × CString) → List (CString × CString)
set_text k v [] = (k, v) ∷ []
set_text k v ((j, w) ∷ d) =
    let rest = set_text k v d in if bytes_eq j k then (k, v) ∷ d else (j, w) ∷ rest

unfoldable pub set_texts :
    List (CString × CString) → List (CString × CString) → List (CString × CString)
unfolding set_text
set_texts [] d = d
set_texts ((k, v) ∷ es) d = set_texts es (set_text k v d)

-- The loop over the entries, after the calls and the dict so far; a key that is no string is `none`.
-- A failure leaves what GLib was told before, which is the second part of the result.
unfoldable pub add_signals :
    Glib
    → (CString → Bool)
    → (CString → ℕ)
    → List (Option CString × SignalValue)
    → List (CString × CString)
    → Result (List (CString × CString)) × List SignalCall
unfolding add_signal set_texts
add_signals g creates lookup [] d = (ok d, [])
add_signals g creates lookup ((none, v) ∷ es) d = (err bad_key, [])
add_signals g creates lookup ((some name, v) ∷ es) d =
    let rest = λ (d' : List (CString × CString)). add_signals g creates lookup es d' in
    elim (add_signal g creates lookup name v) [
      | err f ↦ (err f, [])
      | ok a ↦ let (r, calls) = rest (set_texts a.overridden d) in (r, a.calls ++ calls)
    ]
