-- ===== src/Options/History.antt =====
-- The references to the wrappers of option groups, over every sequence of what Python code and GLib do
-- with groups and contexts.
use debian_pygobject.Base.{
  Option, List, ℕ, suc, ◌<◌, ◌≡◌, ◌⊎◌, true, false, none, some, is_some, [], update,
}
use debian_pygobject.Options.{
  Group, Context, World, group_init, option_group_new, group_decref, group_incref, destroy_g_group,
  set_group, set_main_group, add_group, get_main_group, context_dealloc,
}
use debian_pygobject.Options.Entries.{EntryArg, add_entries}

-- A wrapper that was just made, in one of the two ways.
abbrev pub IsNew : Group → Type 0
IsNew x = ((p : ℕ) × (f : ℕ) × (x ≡ group_init p f)) ⊎ ((p : ℕ) × (x ≡ option_group_new p))

-- What may happen while `outside` says how many references to each wrapper other code has. Groups that
-- are not used yet are there from the start.
pub data Reach : (ℕ → ℕ) → World → Type 0 where
  starts :
      (groups : ℕ → Group) (contexts : ℕ → Context)
      → ((g : ℕ) → IsNew (groups g))
      → ((c : ℕ) → (contexts c).main_group ≡ none)
      → Reach (λ g. 1) (record { groups = groups; contexts = contexts; calls = [] })
  setting :
      (c g : ℕ) {outside : ℕ → ℕ} {w : World}
      → Reach outside w
      → 0 < outside g
      → Reach outside (set_main_group c (some g) w).1
  adding :
      (c g : ℕ) {outside : ℕ → ℕ} {w : World}
      → Reach outside w
      → 0 < outside g
      → Reach outside (add_group c (some g) w).1
  asking :
      (c g : ℕ) {outside : ℕ → ℕ} {w : World}
      → Reach outside w
      → (w.contexts c).main_group ≡ some g
      → Reach (update outside g (suc (outside g))) (get_main_group c w).1
  ending :
      (c : ℕ) {outside : ℕ → ℕ} {w : World} → Reach outside w → Reach outside (context_dealloc c w)
  freeing :
      (g : ℕ) {outside : ℕ → ℕ} {w : World}
      → Reach outside w
      → (w.groups g).other_owner ≡ false
      → (w.groups g).is_in_context ≡ true
      → is_some (w.groups g).group ≡ true
      → Reach (update outside g (outside g)) (set_group g (destroy_g_group (w.groups g)) w)
  describing :
      (g : ℕ) (entries : Option (Option (List EntryArg))) {outside : ℕ → ℕ} {w : World}
      → Reach outside w
      → 0 < outside g
      → Reach
          (update outside g (outside g))
          (set_group g (add_entries entries (w.groups g)).after w)
  taking :
      (g : ℕ) {outside : ℕ → ℕ} {w : World}
      → Reach outside w
      → 0 < (w.groups g).refs
      → Reach (update outside g (suc (outside g))) (set_group g (group_incref (w.groups g)) w)
  dropping :
      (g n : ℕ) {outside : ℕ → ℕ} {w : World}
      → Reach outside w
      → outside g ≡ suc n
      → Reach (update outside g n) (set_group g (group_decref (w.groups g)) w)
