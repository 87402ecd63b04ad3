-- ===== src/Controller/Ending.antt =====
-- How a composition ends (frontend/src/core/composition_controller.cpp: enter, seal, commit).
use ime_windows.Prelude.{
  ℕ, ◌+◌, ◌*◌, ◌<◌, ◌≡◌, ◌⊎◌, Bool, true, some, List, is_some, arith, length, all, holds_nat,
  u64_mod,
}
use ime_windows.Buffer.Text.{to_string, final_text}
use ime_windows.Buffer.Edits.{freeze_readings}
use ime_windows.Buffer.Validity.{IsValid}
use ime_windows.Buffer.FreezingText.{freeze_readings-IsValid}
use ime_windows.Buffer.Showing.{ready_to_commit-shows, caret_offset-splits}
use ime_windows.Sealed.Segment.{training_sample, value_or_empty, sealed_segment}
use ime_windows.Sealed.Queue.{add_segment}
use ime_windows.Sealed.Progress.{commit_sample-total}
use ime_windows.Controller.State.{
  Composition, CompositionHost, ControllerState, settled, sealed_host,
}
use ime_windows.Controller.Actions.{commit, seal, seal_composition}

module _ {D : Type 0} (append16 : ℕ → List ℕ) (host : CompositionHost D) where
  commit-total :
      (c : Composition) (s : ControllerState D)
      → IsValid c.buffer
      → is_some (commit append16 host c s) ≡ true
  unfolding commit training_sample
  commit-total c s v = ground (
    arith,
    commit_sample-total append16 (sealed_host host) (value_or_empty c.preceding) c.buffer v.entries,
  )

  seal_composition-total :
      (frozen : Bool) (c : Composition) (s : ControllerState D)
      → IsValid c.buffer
      → is_some (seal_composition append16 host frozen c s) ≡ true
  unfolding seal_composition add_segment sealed_segment
  seal_composition-total frozen c s v =
      let (before, after, first, shown, at) = caret_offset-splits append16 c.buffer v in
      ground (arith, shown)

  -- Sealing never throws on a well-formed composition with ids left for four symbols of each entry.
  pub seal-total :
      (c : Composition) (s : ControllerState D)
      → s.composition ≡ some c
      → IsValid c.buffer
      → c.buffer.next_id + 4 * length c.buffer.buffer < u64_mod
      → is_some (seal append16 host s) ≡ true
  unfolding seal
  seal-total c s here v room =
      let c' : Composition = record c { buffer = (freeze_readings c.buffer).0 } in
      let v' = freeze_readings-IsValid c.buffer v room in
      ground (
        arith,
        here,
        commit-total c' s v',
        seal_composition-total (freeze_readings c.buffer).1 c' s v',
      )

-- A settled composition shows the text that it is committed with, and all its entries are fixed or the
-- conversion shown is that of the present content.
pub settled-shows :
    (append16 : ℕ → List ℕ) (c : Composition)
    → settled c ≡ true
    → (to_string append16 c.buffer ≡ final_text append16 c.buffer)
      × ((all (λ item. item.chosen) c.buffer.buffer ≡ true)
          ⊎ (holds_nat c.converted c.buffer.revision ≡ true))
unfolding settled
settled-shows append16 c h = ground (arith, ready_to_commit-shows append16 c.buffer)
