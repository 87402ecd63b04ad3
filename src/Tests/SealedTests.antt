-- ===== src/Tests/SealedTests.antt =====
-- The theorems on requests, the candidate lock and sealed text at concrete inputs.
use ime_windows.Buffer.State.{conversion_snapshot}
use ime_windows.Prelude.{
  ℕ, ◌+◌, ◌≡◌, refl, ◌⊎◌, true, false, none, some, List, [], ◌∷◌, ◌++◌, length, All, is_some, arith,
}
use ime_windows.Conversions.Tracker.{Request, ConversionTracker, send, take_request, BackendCall}
use ime_windows.Conversions.Answers.{take_request-send}
use ime_windows.Conversions.Lock.{
  Held, unlocked, open_lock, hold_all, close_lock, IsNewest, close_lock-hold_all,
}
use ime_windows.Sealed.Units.{drop_last_characters}
use ime_windows.Sealed.Characters.{Character, IsCharacter, encode, drop_last_characters-encode}
use ime_windows.Sealed.Segment.{
  Stage, SealedSegment, finish_segment, erases_before, text, following_context, value_or_empty,
}
use ime_windows.Sealed.Erasing.{following_context-encode}
use ime_windows.Sealed.Queue.{
  DocumentHost, QueueState, verdict, write_loop, write_finished, write, is_unchanged, convert,
}
use ime_windows.Sealed.Writing.{IsRest, write_finished_idem, write_finished-IsRest}
use ime_windows.Sealed.Progress.{IsAwaited, convert-IsAwaited}
use ime_windows.Tests.Samples.{ni, ni_converted, utf16, waiting}

-- A request for 你, in the composition 1 of the document 9.
abbrev ni_request : Request
ni_request = record { epoch = 1; revision = 5; document = 9; snapshot = ni ∷ [] }

abbrev tracker : ConversionTracker
tracker = record { backend = true; sequence = 6; pending = (6, ni_request) ∷ []; calls = [] }

take_request-send_example :
    ((send ni_request [] tracker).1 ≡ some (tracker.sequence + 1))
    × ((take_request (tracker.sequence + 1) (send ni_request [] tracker).0).1 ≡ some ni_request)
    × ((take_request
          (tracker.sequence + 1)
          (take_request (tracker.sequence + 1) (send ni_request [] tracker).0).0).1
        ≡ none)
    × ((take_request 6 (take_request (tracker.sequence + 1) (send ni_request [] tracker).0).0).1
        ≡ (take_request 6 tracker).1)
take_request-send_example =
    take_request-send ni_request [] tracker 6 refl (omega arith) (omega arith, tt) (omega arith)

abbrev held_at : ℕ → Held
held_at sequence = record { sequence = sequence; requested = ni; converted = ni_converted }

close_lock-hold_all_example :
    (newest : Held) × (close_lock
        (hold_all (held_at 7 ∷ held_at 9 ∷ held_at 8 ∷ []) (open_lock 1 unlocked))
      ≡ (unlocked, some newest))
    × IsNewest (held_at 7 ∷ held_at 9 ∷ held_at 8 ∷ []) newest
close_lock-hold_all_example = close_lock-hold_all 1 (held_at 7) (held_at 9 ∷ held_at 8 ∷ [])

-- a, and 𠀀, which is a surrogate pair.
abbrev before_it : List Character
before_it = Character.unit 0x61 ∷ []

abbrev astral : List Character
astral = Character.pair 0xd840 0xdc00 ∷ []

whole : All IsCharacter (before_it ++ astral)
unfolding IsCharacter
whole = (refl, ((refl, refl), tt))

drop_last_characters-encode_example :
    drop_last_characters (length astral) (encode (before_it ++ astral)) ≡ encode before_it
drop_last_characters-encode_example = drop_last_characters-encode before_it astral whole

-- 你, left in the document while the request 7 converts it.
abbrev segment : SealedSegment
segment = record {
  epoch = 1;
  document = 9;
  buffer = waiting;
  shown = 0x310b ∷ 0x3127 ∷ [];
  preceding = some (encode (before_it ++ astral));
  erased = 0;
  stage = Stage.converting 7;
  in_document = true;
}

-- Two Backspaces later.
abbrev erased_segment : SealedSegment
erased_segment = record segment { erased = 2; stage = Stage.finished }

following_context-encode_example :
    (following_context utf16 erased_segment ≡ some (encode before_it))
    × (text utf16 erased_segment ≡ some [])
following_context-encode_example =
    following_context-encode utf16 erased_segment before_it astral whole refl refl

convert-IsAwaited_example :
    (((tracker.backend ≡ false) ⊎ (conversion_snapshot segment.buffer ≡ none))
      × (convert segment tracker ≡ (finish_segment segment, tracker)))
    ⊎ ((tracker.backend ≡ true)
        × (is_some (conversion_snapshot segment.buffer) ≡ true)
        × IsAwaited segment
            (convert segment tracker).0
            (convert segment tracker).1
            (tracker.sequence + 1)
        × ((convert segment tracker).1.calls
            ≡ tracker.calls
              ++ (BackendCall.predict_call
                    (tracker.sequence + 1)
                    1
                    (value_or_empty segment.preceding)
                    segment.buffer.buffer
                  ∷ [])))
convert-IsAwaited_example = convert-IsAwaited segment tracker (omega arith) (omega arith, tt)

-- Documents that count the writes, and hold no text any more.
abbrev counting : DocumentHost ℕ
counting = record {
  request_write = λ document n. (n, true);
  sealed_text = λ document epoch n. none;
  write_sealed = λ document epoch t n. n + 1;
  erase_before_sealed = λ document epoch count n. n + 1;
  release_sealed = λ document epoch n. n + 1;
  caret_after_sealed = λ document epoch n. true;
  record_commit = λ document epoch sample n. n;
}

-- A finished segment, and one behind it that is still converted.
abbrev queue : QueueState ℕ
queue = record {
  segments = erased_segment ∷ record segment { epoch = 2 } ∷ [];
  conversions = tracker;
  documents = 0;
}

abbrev written : QueueState ℕ
written = record queue { segments = record segment { epoch = 2 } ∷ []; documents = 1 }

write_finished_idem_example :
    write_finished utf16 counting 9 (record written { documents = 4 })
    ≡ some (record written { documents = 4 })
unfolding write_finished write_loop verdict write is_unchanged erases_before
write_finished_idem_example = write_finished_idem utf16 counting 9 queue written 4 refl

write_finished-IsRest_example : IsRest 9 false queue.segments written.segments
unfolding write_finished write_loop verdict write is_unchanged erases_before
write_finished-IsRest_example = write_finished-IsRest utf16 counting 9 queue written refl
