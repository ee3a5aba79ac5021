-- ===== src/Handles/Tests.antt =====
-- The theorems on handles, over the drivers of the program.
use zincio.Prelude.{ℕ, ◌≡◌, ◌⊎◌, ◌&&◌, refl, true, false, Option, none, some, List, [], ◌∷◌}
use zincio.Io.Stream.{IoError, other, err, not_connected}
use zincio.Handles.{
  RegistrationMode, poll, completion, is_completion, InnerRawHandle, new, rebind_mode,
  uses_completion,
}
use zincio.Handles.Binding
use zincio.Handles.Binding.{Rebinds}
use zincio.Handles.Creation
use zincio.Handles.Creation.{Creates}
use zincio.Handles.AnyDriver.Uring.{uring_driver}
use zincio.Handles.AnyDriver.Mio
use zincio.Handles.AnyDriver.Mio.{new_of_mio, LosesZero}
use zincio.Drivers.Slab.{vec_slab}
use zincio.Drivers.Uring.{UringDriver, Completion, HandleRegistration}
use zincio.Drivers.Uring as Uring
use zincio.Drivers.Uring.Polls.{Interest}
use zincio.Drivers.Mio.{MioDriver, Registration}

abbrev TestUring : Type 0
TestUring = UringDriver (List (Option HandleRegistration)) (List (Option Completion))

-- One handle is registered, for completion, under the token 0.
abbrev with_seven : TestUring
with_seven = record {
  ring = record { outstanding = []; unsubmitted = 0; entries = 8; pending_submissions = false };
  registrations = some Uring.completion ∷ [];
  completions = [];
}

abbrev bound_seven : InnerRawHandle
bound_seven = record { handle = 7; token = 0; interest = 1; mode = completion }

rebind_outcomes_example :
    (mode : RegistrationMode) × (is_completion mode
      ≡ is_completion poll && uring_driver.supports_completion with_seven)
    × Rebinds with_seven bound_seven mode (rebind_mode with_seven bound_seven poll)
unfolding uring_driver uses_completion
rebind_outcomes_example = Binding.rebind_outcomes with_seven bound_seven poll (refl, refl)

new_outcomes_example :
    ((some with_seven ≡ none) × (new (some with_seven) 8 1 ≡ (none, err not_connected)))
    ⊎ ((d : TestUring) × (mode : RegistrationMode) × (some with_seven ≡ some d)
        × (is_completion mode ≡ uring_driver.supports_completion d)
        × Creates d 8 1 mode (new (some with_seven) 8 1))
new_outcomes_example = Creation.new_outcomes (some with_seven) 8 1

abbrev readable_only : ℕ → Interest
readable_only interest = record { is_readable = true; is_writable = false }

-- A handle with a waiting reader, under the token 0; the selector refuses any other descriptor.
abbrev read_waits : Registration
read_waits = record {
  fd = 7;
  waiter_read = some 5;
  waiter_write = none;
  interest = some (readable_only 1);
}

abbrev with_zero : MioDriver (List (Option Registration))
with_zero = record {
  registrations = some read_waits ∷ [];
  selector = λ token. some (readable_only 1);
  waiter_count = 1;
}

abbrev refuses_all : (ℕ → Option Interest) → ℕ → Interest → Option IoError
refuses_all selector fd interest = some (other 1)

abbrev gives_up : (ℕ → Option Interest) → ℕ → Option IoError
gives_up selector token = none

refused_frees_zero_example :
    LosesZero refuses_all gives_up readable_only with_zero read_waits
      (other 1)
      (new_of_mio refuses_all gives_up readable_only with_zero 99 1 poll)
refused_frees_zero_example =
    Mio.refused_frees_zero refuses_all gives_up readable_only with_zero read_waits 99 1 poll
      (other 1) refl refl refl
