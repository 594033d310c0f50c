-- ===== src/Command/Overrides.antt =====
-- The configuration that cmd/hoocloak/main.go takes from the file and the environment.
use hoocloak.Base.{
  ◌≡◌, refl, ap, ◌∙◌, sym, subst, ◌⊎◌, inl, inr, String, Option, none, some, arith, text_dec, ◌==◌,
  true, Bool-cases, Option-cases, if◌then◌else◌,
}
use hoocloak.Config.{Config}
use hoocloak.Config.Text.{has_prefix}
use hoocloak.Server.Login.{login_mode_password, login_mode_select}
use hoocloak.Command.{
  applied, is_padded_or_empty, with_mode, override_theme, override_mode,
  apply_environment_overrides,
}

-- The configuration with what the environment sets: one of the two modes, and a theme that is the
-- file's or an absolute path.
pub record IsEffective (environment : String → Option String) (c effective : Config) : Type 0 where
  pub mode :
      (effective.login_mode ≡ login_mode_password) ⊎ (effective.login_mode ≡ login_mode_select)
  pub mode_from :
      (environment "HOOCLOAK_LOGIN_MODE" ≡ some effective.login_mode)
      ⊎ ((environment "HOOCLOAK_LOGIN_MODE" ≡ none)
          × (effective.login_mode
              ≡ (if c.login_mode == "" then login_mode_password else c.login_mode)))
  pub theme :
      (environment "HOOCLOAK_UI_THEME_DIR" ≡ some effective.theme_dir)
      ⊎ ((environment "HOOCLOAK_UI_THEME_DIR" ≡ none) × (effective.theme_dir ≡ c.theme_dir))
  pub absolute :
      environment "HOOCLOAK_UI_THEME_DIR" ≡ none ⊎ (has_prefix "/" effective.theme_dir ≡ true)
  pub same :
      effective ≡ record c { login_mode = effective.login_mode; theme_dir = effective.theme_dir }

-- What `override_mode` makes of a configuration.
record Moded (environment : String → Option String) (c effective : Config) : Type 0 where
  pub mode :
      (effective.login_mode ≡ login_mode_password) ⊎ (effective.login_mode ≡ login_mode_select)
  pub from :
      effective.login_mode ≡ (if c.login_mode == "" then login_mode_password else c.login_mode)
  pub theme :
      (environment "HOOCLOAK_UI_THEME_DIR" ≡ some effective.theme_dir)
      ⊎ ((environment "HOOCLOAK_UI_THEME_DIR" ≡ none) × (effective.theme_dir ≡ c.theme_dir))
  pub absolute :
      environment "HOOCLOAK_UI_THEME_DIR" ≡ none ⊎ (has_prefix "/" effective.theme_dir ≡ true)
  pub same :
      effective ≡ record c { login_mode = effective.login_mode; theme_dir = effective.theme_dir }

override_theme-Moded :
    (environment : String → Option String) (c effective : Config) (mode : String)
    → (mode ≡ login_mode_password) ⊎ (mode ≡ login_mode_select)
    → mode ≡ (if c.login_mode == "" then login_mode_password else c.login_mode)
    → override_theme environment (with_mode c mode) ≡ applied effective
    → Moded environment c effective
unfolding override_theme
override_theme-Moded environment c effective mode two from e =
    elim (Option-cases (environment "HOOCLOAK_UI_THEME_DIR")) [
      | inl f ↦
          let same : with_mode c mode ≡ effective = ground (arith, e, f) in
          subst (Moded environment c) same (record {
            mode = two;
            from = from;
            theme = inr (f, refl);
            absolute = inl f;
            same = refl;
          })
      | inr (dir, f) ↦ elim (Bool-cases (is_padded_or_empty dir)) [
        | inl b ↦ absurd (ground (arith, e, f, b))
        | inr b ↦ elim (Bool-cases (has_prefix "/" dir)) [
          | inr n ↦ absurd (ground (arith, e, f, b, n))
          | inl y ↦
              let same : record (with_mode c mode) { theme_dir = dir } ≡ effective =
                ground (arith, e, f, b, y) in
              subst (Moded environment c) same
                (record { mode = two; from = from; theme = inl f; absolute = inr y; same = refl })
        ]
      ]
    ]

override_mode-Moded :
    (environment : String → Option String) (c effective : Config)
    → override_mode environment c ≡ applied effective
    → Moded environment c effective
unfolding override_mode
override_mode-Moded environment c effective e =
    let mode = if c.login_mode == "" then login_mode_password else c.login_mode in
    elim (text_dec mode login_mode_password) [
      | yes p ↦
          override_theme-Moded environment c effective mode (inl p) refl (ground (arith, e, p))
      | no n ↦ elim (text_dec mode login_mode_select) [
        | yes q ↦
            override_theme-Moded environment c effective mode (inr q) refl (ground (arith, e, n, q))
        | no m ↦ absurd (ground (arith, e, n, m))
      ]
    ]

pub overrides-IsEffective :
    (environment : String → Option String) (c effective : Config)
    → apply_environment_overrides environment c ≡ applied effective
    → IsEffective environment c effective
unfolding apply_environment_overrides
overrides-IsEffective environment c effective e =
    elim (Option-cases (environment "HOOCLOAK_LOGIN_MODE")) [
      | inl f ↦
          let m = override_mode-Moded environment c effective (ground (arith, e, f)) in
          record {
            mode = m.mode;
            mode_from = inr (f, m.from);
            theme = m.theme;
            absolute = m.absolute;
            same = m.same;
          }
      | inr (mode, f) ↦ elim (Bool-cases (is_padded_or_empty mode)) [
        | inl b ↦ absurd (ground (arith, e, f, b))
        | inr b ↦
            let m =
              override_mode-Moded environment (with_mode c mode) effective
                (ground (arith, e, f, b)) in
            let kept : effective.login_mode ≡ mode = ground (arith, b, m.from) in
            record {
              mode = m.mode;
              mode_from = inl (f ∙ ap some (sym kept));
              theme = m.theme;
              absolute = m.absolute;
              same = m.same;
            }
      ]
    ]
