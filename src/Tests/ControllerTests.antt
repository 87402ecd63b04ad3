-- ===== src/Tests/ControllerTests.antt =====
-- The theorems on the controller at concrete inputs.
use ime_windows.Prelude.{ℕ, ◌+◌, refl, true, false, none, some, [], next64, arith}
use ime_windows.Conversions.Tracker.{ConversionTracker}
use ime_windows.Controller.State.{
  Composition, CompositionHost, ControllerState, live, owns, run_edit, queue_edit, new_composition,
}
use ime_windows.Controller.Actions.{
  escape, candidates_opened, discard_composition, open_composition, open_new,
}
use ime_windows.Controller.Results.{reset_composition}
use ime_windows.Controller.Steps.{run_now}
use ime_windows.Controller.Parts.{Part, do_part}
use ime_windows.Sealed.Epochs.{Increasing}
use ime_windows.Controller.Ordered.{IsOrdered}
use ime_windows.Controller.Interleaving.{Event, Reaches, happen, run_edit_at, Reaches-IsOrdered}
use ime_windows.Tests.Samples.{utf16, waiting}

-- Documents that take every edit and count what is done to them.
abbrev counter : CompositionHost ℕ
counter = record {
  is_open = λ document n. true;
  erase_before_caret = λ document n. n + 1;
  preceding_text = λ document epoch n. [];
  render = λ document epoch shown n. n + 1;
  commit = λ document epoch n. n + 1;
  discard = λ document epoch n. n + 1;
  seal = λ document epoch n. n + 1;
  sealed_text = λ document epoch n. none;
  write_sealed = λ document epoch t n. n + 1;
  erase_before_sealed = λ document epoch count n. n + 1;
  release_sealed = λ document epoch n. n + 1;
  caret_after_sealed = λ document epoch n. false;
  record_commit = λ document epoch sample n. n;
}

-- 你 waiting for the model in the document 9.
abbrev open_one : Composition
open_one = record {
  epoch = 1;
  document = 9;
  preceding = some [];
  buffer = waiting;
  candidates = record { entry = none; held = none };
  sent = none;
  converted = none;
}

abbrev idle : ConversionTracker
idle = record { backend = true; sequence = 0; pending = []; calls = [] }

abbrev controller : ControllerState ℕ
controller = record {
  composition = some open_one;
  next_epoch = 2;
  immediate_conversion = false;
  queue = record {
    segments = [];
    conversions = idle;
    documents = record { edits = []; state = 0 };
  };
}

-- A list is opened, and the composition is given up.
abbrev with_list : ControllerState ℕ
with_list = candidates_opened utf16 counter 1 controller

abbrev escaped_one : ControllerState ℕ
escaped_one = escape utf16 counter 9 with_list

-- The edit that discards it has run.
abbrev discarded : ControllerState ℕ
discarded = record escaped_one {
  queue = record escaped_one.queue {
    documents = record { edits = []; state = escaped_one.queue.documents.state + 1 };
  };
}

-- Another one is opened, and forgotten before anything is typed.
abbrev reopened : ControllerState ℕ
reopened = (open_composition utf16 counter 9 false discarded).0

Reaches-IsOrdered_example : IsOrdered (reset_composition utf16 counter reopened)
unfolding Increasing happen candidates_opened run_edit_at run_now escape live owns
    discard_composition run_edit queue_edit do_part open_composition open_new new_composition next64
Reaches-IsOrdered_example =
    Reaches-IsOrdered utf16 counter controller (reset_composition utf16 counter reopened)
      (omega arith, omega arith)
      (Reaches.then_happens Event.forgotten
        (Reaches.then_happens (Event.part_done (Part.opens 9 false))
          (Reaches.then_happens (Event.edit_run 0)
            (Reaches.then_happens (Event.escaped 9)
              (Reaches.then_happens (Event.list_opened 1) Reaches.here (omega arith) refl)
              (omega arith) refl)
            (omega arith) refl)
          (omega arith) refl)
        (omega arith) refl)
