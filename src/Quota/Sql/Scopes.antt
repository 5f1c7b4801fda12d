-- ===== src/Quota/Sql/Scopes.antt =====
-- The scopes of two tenants, of two sessions, and of a tenant and a session, are told apart.
use pixeldive.Prelude.{ℕ, String, ◌≡◌, refl, false, arith, ◌=?◌, nat_eq, string_eq}
use text.Mathlib.TextEquality.{eq_iff}
use text.Mathlib.TextLemmas.{append_cancel_left}
use pixeldive.Prelude.Text.{concat_ne}
use pixeldive.Quota.Sql.{tenant_scope, session_scope}

tenant_scope_injective : (a b : String) → tenant_scope a ≡ tenant_scope b → a ≡ b
unfolding tenant_scope
tenant_scope_injective a b e = append_cancel_left "t:" a b e

pub beq-tenant_scope : (a b : String) → (tenant_scope a =? tenant_scope b) ≡ (a =? b)
beq-tenant_scope a b =
    ground (arith, eq_iff a b, eq_iff (tenant_scope a) (tenant_scope b), tenant_scope_injective a b)

module _ (uuid_text : ℕ → String) where
  pub beq-cross_scope : (a : String) (i : ℕ) → (tenant_scope a =? session_scope uuid_text i) ≡ false
  unfolding tenant_scope session_scope
  beq-cross_scope a i = concat_ne "t:" "s:" a (uuid_text i) refl refl

  pub beq-scope_cross : (a : String) (i : ℕ) → (session_scope uuid_text i =? tenant_scope a) ≡ false
  unfolding tenant_scope session_scope
  beq-scope_cross a i = concat_ne "s:" "t:" (uuid_text i) a refl refl

  module _ (injective : (i j : ℕ) → uuid_text i ≡ uuid_text j → i ≡ j) where
    session_scope_injective :
        (i j : ℕ) → session_scope uuid_text i ≡ session_scope uuid_text j → i ≡ j
    unfolding session_scope
    session_scope_injective i j e = injective i j (append_cancel_left "s:" _ _ e)

    pub beq-session_scope :
        (i j : ℕ) → (session_scope uuid_text i =? session_scope uuid_text j) ≡ (i =? j)
    beq-session_scope i j = ground (
      arith,
      eq_iff (session_scope uuid_text i) (session_scope uuid_text j),
      session_scope_injective i j,
    )
