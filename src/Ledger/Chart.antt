-- ===== src/Ledger/Chart.antt =====
-- `seed_default_chart_of_accounts` of app/services/ledger.py.
use chamacore.Prelude.{
  ℕ, ◌≡◌, refl, ap, ◌∙◌, inl, inr, true, false, String, some, List, [], ◌∷◌, ◌++◌, sym, subst,
  is_some, if◌then◌else◌, Bool-cases, ==_refl,
}
use chamacore.Prelude.Table.{find?, All}
use chamacore.Data.{
  Db, LedgerAccount, LedgerAccountType, cash_code, loans_receivable_code, share_capital_code,
  registration_fees_code, interest_income_code,
}
use text.Mathlib.TextPositions.{eq_refl}
use chamacore.Session.Rules.{>>=-step}
use chamacore.Finance.{has_code}
use chamacore.Session.{Session, fresh, Action, Result, ok, pure, gets, modify, flush, ◌>>=◌, ◌>>◌}

pub record ChartAccount : Type 0 where
  pub code : String
  pub name : String
  pub account_type : LedgerAccountType
  pub description : String

abbrev pub chart_accounts : List ChartAccount
chart_accounts =
    record {
      code = cash_code;
      name = "Cash";
      account_type = LedgerAccountType.asset;
      description = "Money held for the Chama";
    }
    ∷ record {
      code = loans_receivable_code;
      name = "Loans Receivable";
      account_type = LedgerAccountType.asset;
      description = "Outstanding loan principal owed by members (ADR-020)";
    }
    ∷ record {
      code = share_capital_code;
      name = "Share Capital";
      account_type = LedgerAccountType.equity;
      description = "Member contributions recorded as share capital";
    }
    ∷ record {
      code = registration_fees_code;
      name = "Registration Fees";
      account_type = LedgerAccountType.revenue;
      description = "Income from member registration fees";
    }
    ∷ record {
      code = interest_income_code;
      name = "Interest Income";
      account_type = LedgerAccountType.revenue;
      description = "Service interest earned on member loans (ADR-020)";
    }
    ∷ []

new_account : (String → ℕ) → ℕ → ChartAccount → LedgerAccount
new_account drawn chama_id c = record {
  id = drawn c.code;
  chama_id = chama_id;
  code = c.code;
  name = c.name;
  account_type = c.account_type;
  description = some c.description;
}

unfoldable pub add_account : LedgerAccount → Db → Db
add_account a db = record db { accounts = a ∷ db.accounts }

-- One turn of the loop; `drawn` is the uuid that an account of a code gets.
unfoldable pub seed_account : (String → ℕ) → ℕ → ChartAccount → Action (Unit {0})
unfolding new_account add_account
seed_account drawn chama_id c = do
  existing ← gets (λ db. find? (has_code chama_id c.code) db.accounts)
  if is_some existing then pure tt else modify (add_account (new_account drawn chama_id c))

unfoldable pub seed_accounts : (String → ℕ) → ℕ → List ChartAccount → Action (Unit {0})
unfolding seed_account
seed_accounts drawn chama_id [] = pure tt
seed_accounts drawn chama_id (c ∷ cs) = do
  seed_account drawn chama_id c
  seed_accounts drawn chama_id cs

unfoldable pub seed_default_chart_of_accounts : (String → ℕ) → ℕ → Action (Unit {0})
unfolding seed_accounts
seed_default_chart_of_accounts drawn chama_id = do
  seed_accounts drawn chama_id chart_accounts
  flush

-- An account of this code in the Chama.
abbrev pub Has : ℕ → Db → String → Type 0
Has chama_id db code = is_some (find? (has_code chama_id code) db.accounts) ≡ true

Has-add_account :
    (chama_id : ℕ) (a : LedgerAccount) (db : Db) (code : String)
    → Has chama_id db code
    → Has chama_id (add_account a db) code
unfolding add_account
Has-add_account chama_id a db code h = elim (Bool-cases (has_code chama_id code a)) [
  | inl hit ↦ rw hit refl
  | inr miss ↦ rw miss h
]

snoc-append :
    (a : LedgerAccount) (xs ys : List LedgerAccount) → (xs ++ (a ∷ [])) ++ ys ≡ xs ++ (a ∷ ys)
snoc-append a [] ys = refl
snoc-append a (x ∷ xs) ys = ap (λ zs. x ∷ zs) (snoc-append a xs ys)

-- What the loop leaves: the accounts that it works on have grown to `w`.
record Seeded (chama_id : ℕ) (cs : List ChartAccount) (s : Session)
    (out : Result (Unit {0}) × Session) : Type 0 where
  w : Db
  rows : List LedgerAccount
  only : w ≡ record s.work { accounts = rows ++ s.work.accounts }
  state : out ≡ (ok tt, record s { work = w })
  grown : (code : String) → Has chama_id s.work code → Has chama_id w code
  there : All (λ c. Has chama_id w c.code) cs

module _ (drawn : String → ℕ) (chama_id : ℕ) where
  Has-new_account :
      (c : ChartAccount) (db : Db)
      → Has chama_id (add_account (new_account drawn chama_id c) db) c.code
  unfolding add_account new_account
  Has-new_account c db = rw (==_refl chama_id, eq_refl c.code) refl

  skipped :
      (c : ChartAccount) (s : Session)
      → Has chama_id s.flushed c.code
      → seed_account drawn chama_id c s ≡ (ok tt, s)
  unfolding seed_account ◌>>=◌
  skipped c s h = rw h refl

  added :
      (c : ChartAccount) (s : Session)
      → is_some (find? (has_code chama_id c.code) s.flushed.accounts) ≡ false
      → seed_account drawn chama_id c s
        ≡ (ok tt, record s { work = add_account (new_account drawn chama_id c) s.work })
  unfolding seed_account modify ◌>>=◌
  added c s h = rw h refl

  turn :
      (c : ChartAccount) (cs : List ChartAccount) (s t : Session)
      → seed_account drawn chama_id c s ≡ (ok tt, t)
      → seed_accounts drawn chama_id (c ∷ cs) s ≡ seed_accounts drawn chama_id cs t
  unfolding seed_accounts
  turn c cs s t h =
      >>=-step (seed_account drawn chama_id c) (λ _. seed_accounts drawn chama_id cs) s h

  seed_accounts-Seeded :
      (cs : List ChartAccount) (s : Session)
      → ((code : String) → Has chama_id s.flushed code → Has chama_id s.work code)
      → Seeded chama_id cs s (seed_accounts drawn chama_id cs s)
  unfolding seed_accounts
  seed_accounts-Seeded [] s h = record {
    w = s.work;
    rows = [];
    only = refl;
    state = refl;
    grown = λ code k. k;
    there = tt;
  }
  seed_accounts-Seeded (c ∷ cs) s h =
      elim (Bool-cases (is_some (find? (has_code chama_id c.code) s.flushed.accounts))) [
        | inl old ↦
            let rest = seed_accounts-Seeded cs s h in
            record {
              w = rest.w;
              rows = rest.rows;
              only = rest.only;
              state = turn c cs s s (skipped c s old) ∙ rest.state;
              grown = rest.grown;
              there = (rest.grown c.code (h c.code old), rest.there);
            }
        | inr new ↦
            let a = new_account drawn chama_id c in
            let t = record s { work = add_account a s.work } in
            let rest =
              seed_accounts-Seeded cs t
                (λ code k. Has-add_account chama_id a s.work code (h code k)) in
            record {
              w = rest.w;
              rows = rest.rows ++ (a ∷ []);
              only =
                  rest.only
                  ∙ ap (λ xs. record s.work { accounts = xs })
                      (sym (snoc-append a rest.rows s.work.accounts));
              state = turn c cs s t (added c s new) ∙ rest.state;
              grown = λ code k. rest.grown code (Has-add_account chama_id a s.work code k);
              there = (rest.grown c.code (Has-new_account c s.work), rest.there);
            }
      ]

  seed_accounts_complete :
      (cs : List ChartAccount) (s : Session)
      → All (λ c. Has chama_id s.flushed c.code) cs
      → seed_accounts drawn chama_id cs s ≡ (ok tt, s)
  unfolding seed_accounts
  seed_accounts_complete [] s h = refl
  seed_accounts_complete (c ∷ cs) s h =
      turn c cs s s (skipped c s h.0) ∙ seed_accounts_complete cs s h.1

flush_state : (s : Session) → flush s ≡ (ok tt, record s { flushed = s.work })
unfolding flush
flush_state s = refl

-- Seeding the chart of a Chama from a fresh session succeeds and only adds accounts; a query then finds
-- every account of the chart, and seeding again, with any new uuids, changes nothing.
pub seed_default_chart_of_accounts_complete :
    (drawn later : String → ℕ) (chama_id : ℕ) (db : Db) (earlier : List Db)
    → (rows : List LedgerAccount) × let seeded = record db { accounts = rows ++ db.accounts } in
        let t = record (fresh db earlier) { work = seeded; flushed = seeded } in
        (seed_default_chart_of_accounts drawn chama_id (fresh db earlier) ≡ (ok tt, t))
        × All (λ c. Has chama_id seeded c.code) chart_accounts
        × (seed_default_chart_of_accounts later chama_id t ≡ (ok tt, t))
unfolding seed_default_chart_of_accounts
seed_default_chart_of_accounts_complete drawn later chama_id db earlier =
    let first =
      seed_accounts-Seeded drawn chama_id chart_accounts (fresh db earlier) (λ code k. k) in
    let seeded = record db { accounts = first.rows ++ db.accounts } in
    let s = record (fresh db earlier) { work = seeded } in
    let t = record s { flushed = seeded } in
    let there =
      subst (λ w. All (λ c. Has chama_id w c.code) chart_accounts) first.only first.there in
    (
      first.rows,
      (
        >>=-step (seed_accounts drawn chama_id chart_accounts) (λ _. flush) (fresh db earlier)
              (first.state ∙ ap (λ w. (ok tt, record (fresh db earlier) { work = w })) first.only)
            ∙ flush_state s,
        there,
        >>=-step (seed_accounts later chama_id chart_accounts) (λ _. flush) t
              (seed_accounts_complete later chama_id chart_accounts t there)
            ∙ flush_state t,
      ),
    )
