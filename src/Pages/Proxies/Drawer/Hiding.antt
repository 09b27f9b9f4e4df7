-- ===== src/Pages/Proxies/Drawer/Hiding.antt =====
-- dashboard/src/components/proxies/ProxyDetailDrawer.tsx: what the drawer keeps to itself.
use proxy_pool_architect.Base.{
  ◌<◌, ◌≤◌, Bool, true, false, ◌≡◌, refl, Option, none, some, [], ◌∷◌, length, take, arith, ◌⊎◌,
  inl, inr, or_else,
}
use proxy_pool_architect.Base.Text.{Text, codes}
use proxy_pool_architect.Types.Records.{ProxyEndpoint}
use proxy_pool_architect.Format.Masking.{credential_or-hides}
use proxy_pool_architect.I18n.{Language, translate, mask_credential}
use proxy_pool_architect.Pages.Proxies.Drawer.{username_text, drawer_rows, drawer}

-- Names that are masked alike: both longer than two characters with the same first two, both of one or two
-- characters, or both empty.
abbrev pub IsAlike : Text → Text → Type 0
IsAlike s t =
    ((2 < length s) × (2 < length t) × (take 2 s ≡ take 2 t))
    ⊎ (((0 < length s) × (length s ≤ 2) × (0 < length t) × (length t ≤ 2))
        ⊎ ((length s ≡ 0) × (length t ≡ 0)))

-- The same of names that may be missing, where a missing one is as an empty one.
abbrev pub AreAlike : Option Text → Option Text → Type 0
AreAlike u v = IsAlike (or_else u []) (or_else v [])

module _ (language : Language) (parses : Text → Bool) (date_format : Text → Text → Text)
    (proxy : ProxyEndpoint) (p q : Option Text) where
  texts-alike :
      (s t : Text)
      → IsAlike s t
      → username_text language parses date_format (record proxy { username = some s; password = p })
        ≡ username_text language parses date_format
            (record proxy { username = some t; password = q })
  unfolding username_text mask_credential
  texts-alike [] [] alike = refl
  texts-alike [] (b ∷ t) alike = absurd (omega arith)
  texts-alike (a ∷ s) [] alike = absurd (omega arith)
  texts-alike (a ∷ s) (b ∷ t) (inl long) =
      credential_or-hides (translate language (codes "common.notSet") none) (a ∷ s) (b ∷ t)
        (inl long)
  texts-alike (a ∷ s) (b ∷ t) (inr (inl short)) =
      credential_or-hides (translate language (codes "common.notSet") none) (a ∷ s) (b ∷ t)
        (inr short)
  texts-alike (a ∷ s) (b ∷ t) (inr (inr empty)) = absurd (omega arith)

  username_text-alike :
      (u v : Option Text)
      → AreAlike u v
      → username_text language parses date_format (record proxy { username = u; password = p })
        ≡ username_text language parses date_format (record proxy { username = v; password = q })
  unfolding username_text
  username_text-alike none none alike = refl
  username_text-alike none (some t) alike = texts-alike [] t alike
  username_text-alike (some s) none alike = texts-alike s [] alike
  username_text-alike (some s) (some t) alike = texts-alike s t alike

module _ (language : Language) (parses : Text → Bool) (date_format : Text → Text → Text)
    (proxy : ProxyEndpoint) (u v p q : Option Text) (alike : AreAlike u v) where
  rows_same :
      drawer_rows language parses date_format (record proxy { username = u; password = p })
      ≡ drawer_rows language parses date_format (record proxy { username = v; password = q })
  unfolding drawer_rows
  rows_same = rw (username_text-alike language parses date_format proxy p q u v alike) refl

  -- The drawer shows nothing of a password, whether the proxy has a username or not, and of a username no
  -- more than whether there is one, its first two characters, and whether it has more: for two proxies that differ in nothing
  -- else, it is the same, open or not and loading or not.
  pub drawer_hides :
      (open_drawer loading : Bool)
      → drawer language parses date_format open_drawer loading
          (some (record proxy { username = u; password = p }))
        ≡ drawer language parses date_format open_drawer loading
            (some (record proxy { username = v; password = q }))
  unfolding drawer
  drawer_hides false loading = refl
  drawer_hides true true = refl
  drawer_hides true false = rw rows_same refl
