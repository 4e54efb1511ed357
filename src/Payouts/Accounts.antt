-- ===== src/Payouts/Accounts.antt =====
-- Connected accounts (frontend/convex/payouts.ts): what is kept of Stripe's account, and when.
use bling.Prelude.{
  ℕ, Bool, not, ◌&&◌, ◌||◌, Option, none, some, List, [], ◌∷◌, ◌==◌, if◌then◌else◌, String, str_eq,
  keep, find, is_some, or_else,
}
use bling.Accounts.{truthy}
use bling.Store.Interface.{Convex}
use bling.Store.Queries.{first, insert, replace}
use bling.Schema.Docs.{PayoutAccount}
use bling.Schema.State.{Db}

-- A requirement of the account, as Stripe lists it.
pub record Requirement : Type 0 where
  pub awaiting_action_from : String
  pub description : Option String
  pub deadline_status : Option String

pub record BankAccount : Type 0 where
  pub deleted : Bool
  pub status : String
  pub default_for_currency : Bool
  pub bank_name : Option String
  pub last4 : String
  pub currency : String

-- The parts of a Stripe account that are read.
pub record StripeAccount : Type 0 where
  pub id : String
  pub transfers_status : Option String
  pub payouts_status : Option String
  pub requirements : List Requirement

-- The requirements that await the creator.
abbrev pub awaits_user : Requirement → Bool
awaits_user r = str_eq r.awaiting_action_from "user"

abbrev pub descriptions : List Requirement → List String
descriptions [] = []
descriptions (r ∷ rs) =
    if awaits_user r && truthy r.description
    then or_else r.description "" ∷ descriptions rs
    else descriptions rs

-- An entry without a deadline blocks.
abbrev pub is_blocking : Requirement → Bool
is_blocking r =
    awaits_user r
    && (not (truthy r.deadline_status)
        || str_eq (or_else r.deadline_status "") "currently_due"
        || str_eq (or_else r.deadline_status "") "past_due")

abbrev pub is_usable_bank : BankAccount → Bool
is_usable_bank b =
    not b.deleted
    && not (
        str_eq b.status "errored"
        || str_eq b.status "verification_failed"
        || str_eq b.status "tokenized_account_number_deactivated")

-- The default bank account, or else the first.
unfoldable pub chosen_bank : List BankAccount → Option BankAccount
chosen_bank banks =
    let usable = keep is_usable_bank banks in
    elim (find (λ b. b.default_for_currency) usable) [
      | some b ↦ some b
      | none ↦ elim usable [ [] ↦ none | b ∷ bs ↦ some b ]
    ]

unfoldable pub project_account : (creator_id : ℕ) → StripeAccount → List BankAccount → PayoutAccount
unfolding chosen_bank
project_account creator_id account banks =
    let bank = chosen_bank banks in
    record {
      creator_id = creator_id;
      stripe_account_id = account.id;
      transfers_status = or_else account.transfers_status "";
      bank_payouts_status = or_else account.payouts_status "";
      external_account_present = is_some bank;
      external_account_bank_name = elim bank [ none ↦ none | some b ↦ b.bank_name ];
      external_account_last4 = elim bank [ none ↦ none | some b ↦ some b.last4 ];
      external_account_currency = elim bank [ none ↦ none | some b ↦ some b.currency ];
      details_submitted = not (is_some (find is_blocking account.requirements));
      requirements_due = descriptions account.requirements;
    }

module _ ⦃c : Convex⦄ where
  -- A creator keeps their first account; a different id is never adopted.
  unfoldable pub save_account : PayoutAccount → Db → Db
  save_account account db = record db {
    payouts = record db.payouts {
      accounts = elim (first (λ a. a.creator_id == account.creator_id) db.payouts.accounts) [
        | none ↦ insert account db.payouts.accounts
        | some (id, existing) ↦
            if str_eq existing.stripe_account_id account.stripe_account_id
            then replace id account db.payouts.accounts
            else db.payouts.accounts
      ];
    };
  }

  -- `creatorForAccount`, the index `by_stripe_account`.
  unfoldable pub creator_for_account : (stripe_account_id : String) → Db → Option ℕ
  creator_for_account stripe_account_id db =
      elim (first (λ a. str_eq a.stripe_account_id stripe_account_id) db.payouts.accounts) [
        | none ↦ none
        | some (_, a) ↦ some a.creator_id
      ]
