-- ===== src/Evm/Sstore/Tests.antt =====
-- The prices of the mainnet rules, the charges under them, and the theorems on net metering applied
-- to them.
use moola_fix.Common.{◌≡◌, refl, ◌∷◌, [], true, ok, err, arith}
use moola_fix.Evm.Error.{out_of_gas}
use moola_fix.Evm.Meter.{Meter}
use moola_fix.Evm.Sstore.{
  NetPrices, SstorePrices, update_sstore_gas_eip1283, update_sstore_gas_eip2200,
}
use moola_fix.Evm.Sstore.Net.{
  IsBalanced, Nets, NetsAll, effective, write_all, update_sstore_gas_eip2200-Nets,
  write_all-NetsAll,
}

-- The prices of EIP-1283.
abbrev constantinople : NetPrices
constantinople = record {
  noop = 200;
  init = 20000;
  clean = 5000;
  dirty = 200;
  clear_refund = 15000;
  reset_refund = 4800;
  reset_clear_refund = 19800;
}

-- The prices of EIP-2200 with those of EIP-2929 in force.
abbrev berlin : SstorePrices
berlin = record {
  sentry = 2300;
  net = record {
    noop = 100;
    init = 20000;
    clean = 2900;
    dirty = 100;
    clear_refund = 15000;
    reset_refund = 2800;
    reset_clear_refund = 19900;
  };
  eip2929 = true;
  warm_read = 100;
  cold_sload = 2100;
  sstore_reset = 5000;
}

abbrev fresh : Meter
fresh = record { gas_left = 100000; refund = 0 }

constantinople-IsBalanced : IsBalanced constantinople
constantinople-IsBalanced = record { noop_lem = refl; init_lem = refl; clean_lem = refl }

berlin-IsBalanced : IsBalanced (effective berlin)
berlin-IsBalanced = record { noop_lem = refl; init_lem = refl; clean_lem = refl }

-- A slot that is set and reset costs one dearer write and a dirty one, and most of it comes back.
write_all_test :
    write_all constantinople 0 0 (7 ∷ 0 ∷ []) fresh
    ≡ (ok 20200, record { gas_left = 100000; refund = 19800 })
unfolding write_all update_sstore_gas_eip1283
write_all_test = refl

sentry_test :
    update_sstore_gas_eip2200 berlin true 0 0 1 (record { gas_left = 2300; refund = 0 })
    ≡ (err out_of_gas, record { gas_left = 2300; refund = 0 })
unfolding update_sstore_gas_eip2200
sentry_test = refl

write_all-NetsAll_example :
    NetsAll constantinople 5 5
      (0 ∷ 8 ∷ 5 ∷ [])
      fresh
      (write_all constantinople 5 5 (0 ∷ 8 ∷ 5 ∷ []) fresh)
write_all-NetsAll_example =
    write_all-NetsAll constantinople 5 5 (0 ∷ 8 ∷ 5 ∷ []) fresh constantinople-IsBalanced
      (omega arith)

update_sstore_gas_eip2200-Nets_example :
    Nets (effective berlin) 0 7 0 fresh (update_sstore_gas_eip2200 berlin true 7 0 0 fresh)
update_sstore_gas_eip2200-Nets_example =
    update_sstore_gas_eip2200-Nets berlin 0 7 0 fresh berlin-IsBalanced (omega arith) (omega arith)
