-- ===== src/Manager/Access/Issued.antt =====
-- What a caller may do with a token that the manager issues.
use squawk.Prelude.{
  ℕ, suc, true, false, Option, none, some, List, [], ◌∷◌, map, Text, codes, text_eq, words, join,
  arith, refl, sym, ap, ◌∙◌, subst, Bool-cases, inl, inr, ◌≡◌, if◌then◌else◌,
}
use squawk.Manager.Scopes.{
  or_empty, superadmin_scope, system_admin, role_scopes, system_admin_scopes, org_admin_scopes,
  user_manager_scopes, read_scopes, expand_scopes, scope_string, sorted_set, insert, text_lt,
}
use squawk.Manager.Claims.{
  Key, number, text, Claims, TokenConfig, create_access_token, as_json, json_key,
}
use squawk.Manager.Access.{
  user_scopes, holds, is_superadmin, role_in, can_access_team, requires_team_role, calls, answers,
}

read_back-system_admin :
    words (join 32 (sorted_set system_admin_scopes)) ≡ sorted_set system_admin_scopes
unfolding words join sorted_set insert text_lt text_eq
read_back-system_admin = refl

read_back-org_admin : words (join 32 (sorted_set org_admin_scopes)) ≡ sorted_set org_admin_scopes
unfolding words join sorted_set insert text_lt text_eq
read_back-org_admin = refl

read_back-user_manager :
    words (join 32 (sorted_set user_manager_scopes)) ≡ sorted_set user_manager_scopes
unfolding words join sorted_set insert text_lt text_eq
read_back-user_manager = refl

read_back-viewer : words (join 32 (sorted_set read_scopes)) ≡ sorted_set read_scopes
unfolding words join sorted_set insert text_lt text_eq
read_back-viewer = refl

-- The scopes of a role, and whether they hold that of the super-admin.
abbrev Settled : Text → List Text → Type 0
Settled role scopes =
    (words (join 32 (sorted_set scopes)) ≡ sorted_set scopes)
    × (holds superadmin_scope (sorted_set scopes) ≡ text_eq role system_admin)

held_by_admin : holds superadmin_scope (sorted_set system_admin_scopes) ≡ true
unfolding sorted_set insert text_lt text_eq
held_by_admin = refl

held_by_org_admin : holds superadmin_scope (sorted_set org_admin_scopes) ≡ false
unfolding sorted_set insert text_lt text_eq
held_by_org_admin = refl

held_by_user_manager : holds superadmin_scope (sorted_set user_manager_scopes) ≡ false
unfolding sorted_set insert text_lt text_eq
held_by_user_manager = refl

held_by_viewer : holds superadmin_scope (sorted_set read_scopes) ≡ false
unfolding sorted_set insert text_lt text_eq
held_by_viewer = refl

read_back-none : words (join 32 (sorted_set [])) ≡ sorted_set []
unfolding words join sorted_set
read_back-none = refl

held_by_none : holds superadmin_scope (sorted_set []) ≡ false
unfolding sorted_set
held_by_none = refl

role_scopes-Settled : (role : Text) → Settled role (role_scopes role)
unfolding role_scopes
role_scopes-Settled role = elim (Bool-cases (text_eq role system_admin)) [
  | inl e ↦
      let same : role_scopes role ≡ system_admin_scopes = ground (arith, e) in
      subst (Settled role) (sym same) (read_back-system_admin, held_by_admin ∙ sym e)
  | inr e ↦ elim (Bool-cases (text_eq role (codes "OrgAdmin"))) [
    | inl e1 ↦
        let same : role_scopes role ≡ org_admin_scopes = ground (arith, e, e1) in
        subst (Settled role) (sym same) (read_back-org_admin, held_by_org_admin ∙ sym e)
    | inr e1 ↦ elim (Bool-cases (text_eq role (codes "UserManager"))) [
      | inl e2 ↦
          let same : role_scopes role ≡ user_manager_scopes = ground (arith, e, e1, e2) in
          subst (Settled role) (sym same) (read_back-user_manager, held_by_user_manager ∙ sym e)
      | inr e2 ↦ elim (Bool-cases (text_eq role (codes "Viewer"))) [
        | inl e3 ↦
            let same : role_scopes role ≡ read_scopes = ground (arith, e, e1, e2, e3) in
            subst (Settled role) (sym same) (read_back-viewer, held_by_viewer ∙ sym e)
        | inr e3 ↦
            let same : role_scopes role ≡ [] = ground (arith, e, e1, e2, e3) in
            subst (Settled role) (sym same) (read_back-none, held_by_none ∙ sym e)
      ]
    ]
  ]
]

-- JSON has no numbers as keys: in a payload that was read from a token no team is found.
role_in-json :
    (str : ℕ → Text) (team : ℕ) (ks : List (Key × Text))
    → role_in team (map (λ (k, role). (json_key str k, role)) ks) ≡ none
unfolding role_in
role_in-json str team [] = refl
role_in-json str team ((number n, role) ∷ ks) = role_in-json str team ks
role_in-json str team ((text s, role) ∷ ks) = role_in-json str team ks

can_access_team-stranger :
    (team : ℕ) (u : Claims)
    → role_in team u.team_roles ≡ none
    → can_access_team team (some u) ≡ is_superadmin (some u)
unfolding can_access_team
can_access_team-stranger team u missing = elim (Bool-cases (is_superadmin (some u))) [
  | inl e ↦ ground (arith, e, missing)
  | inr e ↦ ground (arith, e, missing)
]

requires_team_role-stranger :
    (allowed : List Text) (team : ℕ) (u : Claims)
    → role_in (suc team) u.team_roles ≡ none
    → requires_team_role allowed (some (suc team)) (some u)
      ≡ (if is_superadmin (some u) then calls else answers 403)
unfolding requires_team_role
requires_team_role-stranger allowed team u missing = elim (Bool-cases (is_superadmin (some u))) [
  | inl e ↦ ground (arith, e, missing)
  | inr e ↦ ground (arith, e, missing)
]

module _ (str : ℕ → Text) (c : TokenConfig) (now user_id : ℕ) (role : Option Text)
    (teams : List (Key × Text)) where
  -- The payload of an access token, as the middleware reads it.
  abbrev pub issued : Claims
  issued = as_json str (create_access_token c now user_id role teams)

  -- The scopes that the middleware reads off an access token are those that the role stands for, in
  -- order and each once: none is lost or changed in the text of the claim, for any role.
  pub user_scopes-issued : user_scopes (some issued) ≡ expand_scopes role
  unfolding user_scopes as_json create_access_token scope_string expand_scopes
  user_scopes-issued = (role_scopes-Settled (or_empty role)).0

  superadmin-issued : is_superadmin (some issued) ≡ text_eq (or_empty role) system_admin
  unfolding is_superadmin expand_scopes
  superadmin-issued =
      ap (holds superadmin_scope) user_scopes-issued ∙ (role_scopes-Settled (or_empty role)).1

  -- With a token that the manager issues only a caller whose role is SystemAdmin can access a team
  -- or passes `requires_team_role`, whatever teams the caller belongs to with whatever roles: the
  -- teams' numbers have become texts in the token, and the checks look for numbers.
  pub can_access_team-issued :
      (team : ℕ) (allowed : List Text)
      → (can_access_team team (some issued) ≡ text_eq (or_empty role) system_admin)
        × (requires_team_role allowed (some (suc team)) (some issued)
            ≡ (if text_eq (or_empty role) system_admin then calls else answers 403))
  unfolding as_json create_access_token
  can_access_team-issued team allowed =
      let admin = superadmin-issued in
      (
        can_access_team-stranger team issued (role_in-json str team teams) ∙ admin,
        requires_team_role-stranger allowed team issued (role_in-json str (suc team) teams)
            ∙ ap (λ b. if b then calls else answers 403) admin,
      )
