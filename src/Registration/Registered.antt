-- ===== src/Registration/Registered.antt =====
-- What pyg_type_register of gobject/gobjectmodule.c has done when it succeeds.
use debian_pygobject.Base.{
  ℕ, ◌+◌, ◌≡◌, refl, ap, ◌∙◌, Bool, true, false, List, [], ◌∷◌, ◌++◌, ◌==◌, if◌then◌else◌, map,
  arith, times, Bool-cases, inl, inr, Option, none, some, CString,
}
use mathlib.Core.List.{append-nil}
use debian_pygobject.Values.TypeFrom.{type_from_object}
use debian_pygobject.Registration.{Base, add_interfaces, Run, run_class_init}
use debian_pygobject.Registration.NewSignals.{
  SignalCall, SignalValue, Result, ok, err, class_init_failed, bad_type, cannot_create_type,
  add_signals,
}
use debian_pygobject.Registration.Register.{
  Env, PyClass, PropertyTuple, DictAttr, absent, no_dict, entries, Event, registers, adds_interface,
  installs, inits_class, tells, replaces_gsignals, deletes_gproperties, Stage, then_stage,
  add_properties, read_property_entry, signals_stage, properties_stage, interfaces_stage,
  class_init_stage, last_stage, class_events, fill_type, given_or_new, type_register,
}
use debian_pygobject.Registration.Interfaces.{implemented, add_interfaces-times}

-- The interfaces that are added.
abbrev pub added : List Event → List ℕ
added [] = []
added (adds_interface t ∷ es) = t ∷ added es
added (_ ∷ es) = added es

added-append : (xs ys : List Event) → added (xs ++ ys) ≡ added xs ++ added ys
added-append [] ys = refl
added-append (adds_interface t ∷ xs) ys = ap (λ ts. t ∷ ts) (added-append xs ys)
added-append (_ ∷ xs) ys = added-append xs ys

added-interfaces : (ts : List ℕ) → added (map adds_interface ts) ≡ ts
added-interfaces [] = refl
added-interfaces (t ∷ ts) = ap (λ us. t ∷ us) (added-interfaces ts)

added-tells : (cs : List SignalCall) → added (map tells cs) ≡ []
added-tells [] = refl
added-tells (c ∷ cs) = added-tells cs

added-inits : (fs : List ℕ) → added (map inits_class fs) ≡ []
added-inits [] = refl
added-inits (f ∷ fs) = added-inits fs

times-append : (v : ℕ) (xs ys : List ℕ) → times v (xs ++ ys) ≡ times v xs + times v ys
times-append v [] ys = omega arith
times-append v (x ∷ xs) ys = ground (arith, times-append v xs ys)

-- What a part of the work adds, if it succeeds.
abbrev Adds : Stage → List ℕ → Type 0
Adds s ts = s.0 ≡ ok tt → added s.1 ≡ ts

then_stage-Adds :
    (a b : Stage) (ts us : List ℕ) → Adds a ts → Adds b us → Adds (then_stage a b) (ts ++ us)
unfolding then_stage
then_stage-Adds (ok u, done) (r, later) ts us h k e =
    added-append done later ∙ ap (λ x. x ++ added later) (h refl) ∙ ap (λ x. ts ++ x) (k e)
then_stage-Adds (err f, done) b ts us h k e = cc

nothing_after : (a b : Stage) (ts : List ℕ) → Adds a [] → Adds b ts → Adds (then_stage a b) ts
nothing_after a b ts h k = then_stage-Adds a b [] ts h k

interfaces_stage-Adds :
    (e : Env) (new_interfaces : Bool) (p : ℕ) (bs : List Base)
    → Adds
        (interfaces_stage e new_interfaces p bs)
        (add_interfaces new_interfaces (e.parent_has p) e.has_info bs)
unfolding interfaces_stage
interfaces_stage-Adds e new_interfaces p bs done =
    added-interfaces (add_interfaces new_interfaces (e.parent_has p) e.has_info bs)

signals-Adds :
    (r : Result (List (CString × CString))) (calls : List SignalCall)
    → Adds
        (elim r [
          | err f ↦ (err f, map tells calls)
          | ok d ↦ (ok tt, map tells calls ++ (replaces_gsignals ∷ []))
        ])
        []
signals-Adds (err f) calls e = cc
signals-Adds (ok d) calls e =
    added-append (map tells calls) (replaces_gsignals ∷ []) ∙ ap (λ x. x ++ []) (added-tells calls)

signals_stage-Adds :
    (e : Env) (s : DictAttr (Option CString × SignalValue)) → Adds (signals_stage e s) []
unfolding signals_stage
signals_stage-Adds e absent done = refl
signals_stage-Adds e no_dict done = cc
signals_stage-Adds e (entries es) done =
    let (r, calls) = add_signals e.glib e.creates e.lookup es [] in signals-Adds r calls done

installed-Adds :
    (r : Result ℕ) (s : Stage)
    → Adds s []
    → Adds (elim r [ err f ↦ (err f, []) | ok spec ↦ (s.0, installs spec ∷ s.1) ]) []
installed-Adds (err f) s h e = refl
installed-Adds (ok spec) s h e = h e

add_properties-Adds :
    (e : Env) (es : List (Option CString × Option PropertyTuple)) → Adds (add_properties e es) []
unfolding add_properties
add_properties-Adds e [] done = refl
add_properties-Adds e ((name, v) ∷ es) done =
    installed-Adds (read_property_entry e name v) (add_properties e es) (add_properties-Adds e es)
      done

properties_stage-Adds :
    (e : Env) (s : DictAttr (Option CString × Option PropertyTuple))
    → Adds (properties_stage e s) []
unfolding properties_stage
properties_stage-Adds e absent done = refl
properties_stage-Adds e no_dict done = cc
properties_stage-Adds e (entries es) done =
    nothing_after (add_properties e es) (ok tt, deletes_gproperties ∷ []) []
      (add_properties-Adds e es) (λ d. refl) done

ran-Adds :
    (r : Option Run)
    → Adds
        (elim r [
          | none ↦ (err class_init_failed, [])
          | some r ↦ (if r.failed then err class_init_failed else ok tt, map inits_class r.called)
        ])
        []
ran-Adds none done = refl
ran-Adds (some r) done = added-inits r.called

class_init_stage-Adds : (depth : ℕ) (e : Env) (t : ℕ) → Adds (class_init_stage depth e t) []
unfolding class_init_stage
class_init_stage-Adds depth e t =
    ran-Adds (run_class_init depth e.glib.parent e.inits e.init_fails t)

last_stage-Adds : (s : DictAttr (Option CString × SignalValue)) → Adds (last_stage s) []
unfolding last_stage
last_stage-Adds absent done = refl
last_stage-Adds no_dict done = refl
last_stage-Adds (entries es) done = refl

class_events-added : (e : Env) (c : PyClass) (p : ℕ) → added (class_events e c p) ≡ []
unfolding class_events
class_events-added e c p = elim (Bool-cases (e.new_constructor p)) [
  | inl keeps ↦ elim (Bool-cases c.has_doc) [
    | inl has ↦ rw (keeps, has)
    | inr lacks ↦ rw (keeps, lacks)
  ]
  | inr drops ↦ elim (Bool-cases c.has_doc) [
    | inl has ↦ rw (drops, has)
    | inr lacks ↦ rw (drops, lacks)
  ]
]

fill_type-Adds :
    (depth : ℕ) (e : Env) (c : PyClass) (p t : ℕ)
    → Adds (fill_type depth e c p t) (
        add_interfaces false (e.parent_has p) e.has_info c.bases
        ++ (add_interfaces true (e.parent_has p) e.has_info c.bases ++ []))
unfolding fill_type
fill_type-Adds depth e c p t =
    let old = interfaces_stage e false p c.bases in
    let signals = signals_stage e c.gsignals in
    let properties = properties_stage e c.gproperties in
    let new = interfaces_stage e true p c.bases in
    let inits = class_init_stage depth e t in
    let last = last_stage c.gsignals in
    let old_types = add_interfaces false (e.parent_has p) e.has_info c.bases in
    let new_types = add_interfaces true (e.parent_has p) e.has_info c.bases in
    let after_new = then_stage inits last in
    let after_properties = then_stage new after_new in
    let after_signals = then_stage properties after_properties in
    let after_old = then_stage signals after_signals in
    nothing_after (ok tt, class_events e c p) (then_stage old after_old)
      (old_types ++ (new_types ++ [])) (λ done. class_events-added e c p)
      (then_stage-Adds old after_old old_types (new_types ++ [])
        (interfaces_stage-Adds e false p c.bases)
        (nothing_after signals after_signals (new_types ++ []) (signals_stage-Adds e c.gsignals) (
          nothing_after properties after_properties (new_types ++ [])
            (properties_stage-Adds e c.gproperties)
            (then_stage-Adds new after_new new_types [] (interfaces_stage-Adds e true p c.bases) (
              nothing_after inits last [] (class_init_stage-Adds depth e t)
                (last_stage-Adds c.gsignals))))))

both_passes :
    (is_parents has_info : ℕ → Bool) (v : ℕ) (bs : List Base)
    → times v (
        add_interfaces false is_parents has_info bs
        ++ (add_interfaces true is_parents has_info bs ++ []))
      ≡ implemented has_info v bs
both_passes is_parents has_info v bs =
    let old = add_interfaces false is_parents has_info bs in
    let new = add_interfaces true is_parents has_info bs in
    let (olds, news) = add_interfaces-times is_parents has_info v bs in
    ap (λ xs. times v (old ++ xs)) (append-nil new)
    ∙ times-append v old new
    ∙ ground (arith, olds, news)

guarded :
    (a b : Bool) (s : Stage) (first : Event) (ts : List ℕ)
    → Adds s ts
    → (let r =
          if a
          then (err bad_type, [])
          else if b
          then (err cannot_create_type, [])
          else then_stage (ok tt, first ∷ []) s in
        r.0 ≡ ok tt → (rest : List Event) × (r.1 ≡ first ∷ rest) × (added rest ≡ ts))
unfolding then_stage
guarded true b s first ts h done = cc
guarded false true s first ts h done = cc
guarded false false s first ts h done = (s.1, refl, h done)

-- Where pyg_type_register succeeds, it has registered a type of the parent that the class names, under
-- the name asked for or the one that is made, and has added each interface as often as it stands among
-- the bases and can be implemented in Python, whether the parent type has it or not.
pub type_register-added :
    (depth : ℕ) (e : Env) (c : PyClass) (type_name : Option CString) (v : ℕ)
    → (type_register depth e c type_name).0 ≡ ok tt
    → (rest : List Event) × ((type_register depth e c type_name).1
        ≡ registers (type_from_object e.glib c.gtype) (given_or_new e c type_name) ∷ rest)
      × (times v (added rest) ≡ implemented e.has_info v c.bases)
unfolding type_register then_stage
type_register-added depth e c type_name v done =
    let p = type_from_object e.glib c.gtype in
    let name = given_or_new e c type_name in
    let t = e.register_static p name in
    let (rest, same, adds) =
      guarded (p == 0) (t == 0) (fill_type depth e c p t) (registers p name) _
        (fill_type-Adds depth e c p t) done in
    (rest, same, ap (times v) adds ∙ both_passes (e.parent_has p) e.has_info v c.bases)
