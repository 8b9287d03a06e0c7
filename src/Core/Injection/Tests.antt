-- ===== src/Core/Injection/Tests.antt =====
-- Runs of the model at concrete inputs, and instances of its theorems.
use mayastor.Common.{
  ◌<◌, ℕ, List, [], ◌∷◌, true, Bool, none, some, is_some, ok, ◌≡◌, ◌↔◌, inr, refl, arith, ◌==◌,
  ◌&&◌, ltb, leb, ◌-◌, ◌+◌,
}
use mathlib.Core.Option
use mayastor.Common.Text.{codes, contains}
use mayastor.Common.Words.{u64_mod}
use mayastor.Core.Injection.{
  with_iovs, nexus_child, FaultIoOperation, submission, IoType, InjectIoCtx, NvmeCodes, status,
  InjectionState, Injection, applies, inject, nvme_error,
}
use mayastor.Core.Injection.Ranges.{io_on, Targets, applies-Targets}
use mayastor.Core.Injection.Hits.{Io, count_applied, first_applied, serve, inject_window}
use mayastor.Core.Injection.Method.RoundTrip.{NvmeLaws, IsPrintable}
use mayastor.Core.Injection.Uri.{as_uri, from_uri}
use mayastor.Core.Injection.Uri.RoundTrip.{IsExpressible}
use mayastor.Core.Injection.Uri.Whole.{from_uri-as_uri}
use mayastor.Core.Injection.Uri.Simple.{IsName, read_url, read_url_laws}

-- A status is its pair of codes here.
abbrev Status : Type 0
Status = ℕ × ℕ

abbrev same_pair : Status → Status → Bool
same_pair (a, b) (c, d) = a == c && b == d

abbrev pairs : NvmeCodes Status
pairs = record {
  data_transfer_error = (0, 4);
  from_codes = λ a b. (a, b);
  sct_of = λ s. s.0;
  sc_of = λ s. s.1;
  same_status = same_pair;
}

same_pair_lem : (s t : Status) → (same_pair s t ≡ true) ↔ (s ≡ t)
same_pair_lem (a, b) (c, d) = ((λ h. ground (arith, h)), (λ h. ground (arith, h)))

pairs_laws : NvmeLaws pairs
pairs_laws = record { from_codes_of = λ s. refl; same_status_iff = same_pair_lem }

abbrev unseen : InjectionState ℕ
unseen = record { started = none; hits = 0; rng = 7 }

abbrev next : ℕ → ℕ × ℕ
next rng = (rng + 1, rng)

-- Three retries, from the second millisecond on, on the blocks 10 to 20.
abbrev fault : Injection Status ℕ
fault = record {
  uri = none;
  domain = nexus_child;
  device_name = codes "disk0";
  io_operation = FaultIoOperation.write;
  io_stage = submission;
  method = status (nvme_error (1, 26));
  time_start = 2000000;
  time_end = 9000000;
  block_start = 10;
  block_end = 20;
  retries = 3;
  state = unseen;
}

fault_uri :
    as_uri pairs fault
    ≡ codes
        "inject://disk0?domain=child&op=w&stage=submit&method=status-nvme-1-1a&begin_at=2&end_at=9&offset=10&num_blk=10&retries=3"
unfolding as_uri
fault_uri = refl

fault-IsExpressible : IsExpressible pairs pairs_laws fault
unfolding IsPrintable
fault-IsExpressible = record {
  printable = (omega arith, omega arith);
  begins = refl;
  begins_fit = omega arith;
  ends = inr (refl, omega arith);
  in_order = omega arith;
  blocks_in_order = omega arith;
  blocks_fit = omega arith;
  retries_fit = omega arith;
}

disk-IsName : IsName (codes "disk0")
unfolding contains
disk-IsName = refl

from_uri-as_uri_example :
    from_uri pairs read_url unseen (as_uri pairs fault)
    ≡ ok (record fault { uri = some (as_uri pairs fault) })
from_uri-as_uri_example =
    from_uri-as_uri pairs pairs_laws IsName read_url read_url_laws fault unseen disk-IsName
      fault-IsExpressible

abbrev write_at : ℕ → InjectIoCtx
write_at offset = io_on nexus_child (codes "disk0") IoType.write offset 2 none

applies-Targets_example :
    (applies submission (write_at 9) fault ≡ true)
    ↔ Targets fault submission nexus_child (codes "disk0") IoType.write 9 2
applies-Targets_example =
    applies-Targets fault submission nexus_child (codes "disk0") IoType.write 9 2 none (omega arith)
      (omega arith) (omega arith)

-- One write to the range, one before it.
abbrev before : List Io
before = (100, submission, write_at 12) ∷ (200, submission, write_at 2) ∷ []

write_applies : applies submission (write_at 19) fault ≡ true
unfolding applies with_iovs
write_applies = refl

few : count_applied before fault + 1 < u64_mod
unfolding applies with_iovs
few = omega arith

inject_window_example :
    is_some (inject next 3000100 3000100 submission (write_at 19) (serve next before fault)).2 ≡ (
      ltb (count_applied before fault + 1) 3
      && leb 2000000 (3000100 - Option.get_or (first_applied before fault) 3000100)
      && ltb (3000100 - Option.get_or (first_applied before fault) 3000100) 9000000)
inject_window_example =
    inject_window next before fault 3000100 submission (write_at 19) refl few write_applies
