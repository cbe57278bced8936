-- ===== src/Registration/TypeName.antt =====
-- get_type_name_for_class of gobject/gobjectmodule.c: a name that no GType has.
use debian_pygobject.Base.{
  ℕ, suc, Bool, Option, none, some, [], ◌∷◌, ◌++◌, ◌==◌, if◌then◌else◌, CString, codes, ltb,
}
use debian_pygobject.CInt.{pos}
use debian_pygobject.Constants.Format.{print_long}

-- `if (type_name[i] == '.') type_name[i] = '+';`
unfoldable pub dots_to_plus : CString → CString
dots_to_plus [] = []
dots_to_plus (b ∷ bs) = (if b == 46 then 43 else b) ∷ dots_to_plus bs

-- From the second try on there is a suffix.
unfoldable pub serial_suffix : ℕ → CString
serial_suffix n = if ltb 1 n then codes "-v" ++ print_long (pos n) else []

-- `class_module` is the `__module__` of the class, if it is a string.
unfoldable pub candidate_name : Option CString → CString → ℕ → CString
unfolding dots_to_plus serial_suffix
candidate_name none tp_name n = dots_to_plus (tp_name ++ serial_suffix n)
candidate_name (some class_module) tp_name n =
    dots_to_plus (class_module ++ (codes "." ++ (tp_name ++ serial_suffix n)))

-- The loop with the number of tries that are left: the name at which it stops is the last that it made.
unfoldable pub name_loop : (CString → Bool) → (ℕ → CString) → ℕ → ℕ → CString → CString
name_loop is_taken name Prim.Native.Nat.zero n last = last
name_loop is_taken name (suc left) n last =
    let rest = name_loop is_taken name left (suc n) (name n) in
    if is_taken (name n) then rest else name n

-- Serials 1 to 999; before the first try there is no name, which is not seen as there is a try.
unfoldable pub type_name_for_class : (CString → Bool) → Option CString → CString → CString
unfolding name_loop candidate_name
type_name_for_class is_taken class_module tp_name =
    name_loop is_taken (candidate_name class_module tp_name) 999 1 []
