-- ===== src/Tests/Histories.antt =====
-- The theorem over histories of requests, at a loan that is disbursed and repaid in part.
use chamacore.Prelude.{ℕ, refl, none, List, [], ◌∷◌}
use chamacore.Prelude.Table.{All}
use chamacore.Data.{LoanStatus}
use chamacore.Session.{fresh}
use chamacore.Ledger.Book.{IsSoundDb}
use chamacore.Requests.{Request, Call, serve}
use chamacore.Requests.Books.{serve-IsSoundDb}
use chamacore.Tests.{env_with, chair, loan_in, before_disbursement, books-IsSoundDb}

abbrev call : ℕ → Request → Call
call n r = record { env = env_with n; actor = chair; request = r }

-- A disbursement, its retry, a repayment, and its reversal.
abbrev calls : List Call
calls =
    call 100 (Request.loan_disburse 1 70)
    ∷ call 200 (Request.loan_disburse 1 70)
    ∷ call 300 (Request.loan_repay 1 70 15000 none)
    ∷ call 400 (Request.loan_reverse_repayment 1 70 300)
    ∷ []

serve-IsSoundDb_example :
    IsSoundDb (serve (fresh before_disbursement []) calls).saved
    × All IsSoundDb (serve (fresh before_disbursement []) calls).earlier
serve-IsSoundDb_example =
    serve-IsSoundDb before_disbursement calls
      (books-IsSoundDb (loan_in LoanStatus.approved ∷ []) []) (refl, (refl, (refl, (refl, tt))))
