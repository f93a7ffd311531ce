-- ===== src/Presets/Seeds.antt =====
-- Seeding the built-in presets (hub/app/services/preset_service.py, `ensure_builtins`).
use ampla.Shared.{
  ℕ, ◌+◌, ◌≡◌, refl, inl, inr, String, Bool, true, ◌&&◌, ◌==◌, eq_string, eq_int, none, List, [],
  ◌∷◌, Bool-cases, All, option_beq,
}
use ampla.Models.{GuardrailPreset, PresetSettings}
use ampla.Hub.{Db, Env}
use ampla.Hub.Exec.{ok}
use ampla.Agents.Service.{is_there}
use ampla.Agents.Names.{eq_refl, there-snoc}
use ampla.Presets.{
  add_preset, new_preset, preset_named, ensure_builtin, ensure_all, ensure_builtins,
  builtin_presets,
}

-- A built-in preset of the name is there.
abbrev pub seeded : Db → String → Bool
seeded db name = is_there (preset_named none name db)

-- One turn: the name is there afterwards, and so is every name that was.
ensure_builtin-seeds :
    (env : Env) (name : String) (s : PresetSettings) (db : Db)
    → (n : ℕ) × (after : Db) × (ensure_builtin env name s db ≡ (ok n, after))
      × (seeded after name ≡ true)
      × ((other : String) → seeded db other ≡ true → seeded after other ≡ true)
unfolding add_preset
ensure_builtin-seeds env name s db = elim (Bool-cases (seeded db name)) [
  | inl e ↦ (0, db, rw e refl, e, λ other h. h)
  | inr e ↦ (
    1,
    (add_preset (new_preset env none name s db) db).1,
    rw e refl,
    there-snoc (λ (p : GuardrailPreset). option_beq p.owner_id none && p.name == name)
        (new_preset env none name s db) db.presets (inr (eq_refl name)),
    λ other h.
        there-snoc (λ (p : GuardrailPreset). option_beq p.owner_id none && p.name == other)
          (new_preset env none name s db) db.presets (inl h),
  )
]

ensure_all-seeds :
    (env : Env) (wanted : List (String × PresetSettings)) (db : Db)
    → (n : ℕ) × (after : Db) × (ensure_all env wanted db ≡ (ok n, after))
      × All (λ (w : String × PresetSettings). seeded after w.0 ≡ true) wanted
      × ((other : String) → seeded db other ≡ true → seeded after other ≡ true)
unfolding ensure_all
ensure_all-seeds env [] db = (0, db, refl, tt, λ other h. h)
ensure_all-seeds env ((name, s) ∷ rest) db =
    let (n, mid, e, here, kept) = ensure_builtin-seeds env name s db in
    let (k, after, f, there, still) = ensure_all-seeds env rest mid in
    (n + k, after, rw (e, f) refl, (still name here, there), λ other h. still other (kept other h))

-- Where all names are there, nothing is created.
ensure_all-idle :
    (env : Env) (wanted : List (String × PresetSettings)) (db : Db)
    → All (λ (w : String × PresetSettings). seeded db w.0 ≡ true) wanted
    → ensure_all env wanted db ≡ (ok 0, db)
unfolding ensure_all
ensure_all-idle env [] db h = refl
ensure_all-idle env ((name, s) ∷ rest) db h = rw (h.0, ensure_all-idle env rest db h.1) refl

-- Seeding always returns, leaves every built-in preset, and a second seeding, whatever the clock and
-- the keys then, creates none and changes nothing.
ensure_builtins-again :
    (env later : Env) (db : Db)
    → (n : ℕ) × (after : Db) × (ensure_builtins env db ≡ (ok n, after))
      × All (λ (w : String × PresetSettings). seeded after w.0 ≡ true) builtin_presets
      × (ensure_builtins later after ≡ (ok 0, after))
unfolding ensure_builtins
ensure_builtins-again env later db =
    let (n, after, e, all_there, kept) = ensure_all-seeds env builtin_presets db in
    (n, after, e, all_there, ensure_all-idle later builtin_presets after all_there)
