-- ===== src/Pos/Tests.antt =====
-- Register sessions at concrete inputs.
use gs_erp.Base.{
  value_of, ℕ, suc, ◌+◌, ◌-◌, ◌≡◌, refl, true, some, List, [], arith, pos, negsuc, ◌+ℤ◌, Result, ok,
  err, journal_not_balanced, register_already_closed, is_ok, false,
}
use gs_erp.Core.Date.{Date}
use gs_erp.Core.Currency.{Currency}
use gs_erp.Core.Money.{Money}
use gs_erp.Finance.Journal.{AccountType, JournalLine, make_draft}
use gs_erp.Finance.Ledger.{Ledger}
use gs_erp.Finance.Ledger.Balance.{draft_net}
use gs_erp.Pos.Register.{
  Registers, OpenRegisterCommand, CloseRegisterCommand, open_register, close_register, close_lines,
  draft_of, post_close,
}
use gs_erp.Pos.Register.Sessions.{IsSingle, open_register-IsSingle}
use gs_erp.Pos.Register.Stuck.{close_register-stuck}
use gs_erp.Pos.Register.Entry.{Accounts, money, close_lines_short, close_lines_over}

abbrev sar : Currency
sar = record { code = "SAR"; minor_units = 2 }

abbrev june : Date
june = record { year = 2026; month = 6; day = 15 }

abbrev books : Ledger
books = record {
  accounts =
      λ a. some (record { account_type = AccountType.asset; is_active = true; is_postable = true });
  calendar = record { fiscal_years = []; periods = []; next_period = 1 };
  entries = [];
  next_pk = 1;
}

abbrev registers : Registers
registers = record {
  sessions = [];
  next_pk = 1;
  accounts = record { cash = some 1; clearing = some 2; variance = some 3 };
  ledger = books;
}

registers-IsSingle : IsSingle registers
registers-IsSingle user warehouse = omega arith

-- A float of 100.
abbrev opening : OpenRegisterCommand
opening = record { user_id = 7; warehouse_id = 1; opening_float = money sar (pos 1000000) }

unfoldable opened : Registers × ℕ
unfolding open_register
opened = value_of (registers, 0) (open_register opening registers)

opened_done : open_register opening registers ≡ ok (opened.0, opened.1)
unfolding opened
opened_done = refl

opened-IsSingle : IsSingle opened.0
opened-IsSingle =
    open_register-IsSingle opening registers opened.0 opened.1 registers-IsSingle opened_done

-- 90 are counted where 100 are expected.
abbrev closing : CloseRegisterCommand
closing = record {
  session_id = 1;
  closing_float = money sar (pos 900000);
  expected_cash = some (money sar (pos 1000000));
}

unfoldable closed : Registers × Money
unfolding close_register opened
closed = value_of (registers, money sar (pos 0)) (close_register june "T" closing opened.0)

closed_done : close_register june "T" closing opened.0 ≡ ok (closed.0, closed.1)
unfolding closed gs_erp.Core.Money.sub gs_erp.Finance.Journal.debit_only
    gs_erp.Finance.Journal.credit_only gs_erp.Base.◌-ℤ◌
closed_done = refl

-- The session is closed, and nothing is posted.
closed_ledger : closed.0.ledger ≡ books
unfolding closed gs_erp.Core.Money.sub gs_erp.Finance.Journal.debit_only
    gs_erp.Finance.Journal.credit_only gs_erp.Base.◌-ℤ◌ make_draft ◌+ℤ◌
closed_ledger = refl

three-Accounts : Accounts 1 2 3
three-Accounts = record {
  cash_key = omega arith;
  clearing_key = omega arith;
  id_key = omega arith;
  cash_apart = omega arith;
  cash_aside = omega arith;
}

close_lines_short_example :
    (ls : List JournalLine) × (close_lines 1 2
        (some 3)
        (money sar (pos 900000))
        (money sar (negsuc 99999))
      ≡ ok ls)
    × (make_draft (draft_of june "T" ls) ≡ err journal_not_balanced)
    × (post_close june "T" 1 ls books ≡ books)
close_lines_short_example =
    close_lines_short 1 2 3 sar 900000 99999 june "T" 1 books three-Accounts (omega arith)

-- 30 are counted where 100 are expected.
abbrev scant : CloseRegisterCommand
scant = record {
  session_id = 1;
  closing_float = money sar (pos 300000);
  expected_cash = some (money sar (pos 1000000));
}

close_register-stuck_example : is_ok (close_register june "T" scant opened.0) ≡ false
unfolding opened
close_register-stuck_example =
    close_register-stuck june "T" scant opened.0 1 2 3 sar 300000 1000000 refl refl refl
      (omega arith) (omega arith)

close_lines_over_example :
    (ls : List JournalLine) × (close_lines 1 2
        (some 3)
        (money sar (pos 900000))
        (money sar (pos (suc 99999)))
      ≡ ok ls)
    × (make_draft (draft_of june "T" ls) ≡ ok (draft_of june "T" ls))
    × (draft_net 1 ls ≡ pos 900000 +ℤ pos (suc 99999))
close_lines_over_example =
    close_lines_over 1 2 3 sar 900000 99999 june "T" three-Accounts (omega arith)
