-- ===== src/App/Tracks.antt =====
-- The step to the next or the previous track, which a set-disk-track message asks for by number.
use native.Mathlib.Nat.{mod-eq_of_lt}
use diy_acura_bluetooth.Prelude.{
  ℕ, ◌+◌, ◌-◌, ◌/◌, ◌≤◌, ◌<◌, ◌≡◌, refl, ap, ◌∙◌, Bool, true, false, not, ◌&&◌, none, Returns, [],
  ◌∷◌, ◌++◌, arith, length, ltb, leb, ◌==◌, if◌then◌else◌, ==→eq, Bool-cases, inl, inr,
}
use diy_acura_bluetooth.Prelude.Words.{u8}
use diy_acura_bluetooth.Fifo
use diy_acura_bluetooth.Fifo.Many.{contents-push}
use diy_acura_bluetooth.Link.Types.{SetDiskTrack}
use diy_acura_bluetooth.App.State.{App, next, prev}
use diy_acura_bluetooth.App.Decode.{push_simple_mbus_msg, track_offset, move_track, set_disk_track}
use diy_acura_bluetooth.App.Update.{carry_out, take_command}
use diy_acura_bluetooth.App.Inv.{IsValid}
use diy_acura_bluetooth.Rn52.State.{rn52_avrcp_cmd_next, rn52_avrcp_cmd_prev}
use diy_acura_bluetooth.Rn52.Commands.{is_connected, avrcp_next, avrcp_prev}
use diy_acura_bluetooth.Rn52.Asked.{commands, HasPlace, push_if_connected_lem}

-- The track after `track` on a disk of `size` tracks, and the one before it.
abbrev pub track_after : ℕ → ℕ → ℕ
track_after size track = if track + 1 == size then 0 else track + 1

abbrev pub track_before : ℕ → ℕ → ℕ
track_before size track = if track == 0 then size - 1 else track - 1

-- The track `k` further back is at offset `k`.
offset_back :
    (track wanted size k : ℕ)
    → k < size
    → track + 1 ≡ wanted + k
    → track_offset track wanted size ≡ k
unfolding track_offset
offset_back track wanted size k h e =
    let d : track + 1 - wanted ≡ k = omega arith in
    let ahead : leb wanted (track + 1) ≡ true = ground arith in rw (ahead, d) (mod-eq_of_lt h)

-- The track `k` further on is at offset `size - k`.
offset_on :
    (track wanted size k : ℕ)
    → k < size
    → 0 < k
    → wanted ≡ track + 1 + k
    → track_offset track wanted size ≡ size - k
unfolding track_offset
offset_on track wanted size k h p e =
    let d : wanted - (track + 1) ≡ k = omega arith in
    let behind : leb wanted (track + 1) ≡ false = ground arith in
    let some_left : (k == 0) ≡ false = ground arith in
    rw (behind, d, mod-eq_of_lt h, some_left) refl

offset_after :
    (track size : ℕ)
    → track < size
    → 3 ≤ size
    → track_offset track (track_after size track + 1) size ≡ size - 1
offset_after track size h k = elim (Bool-cases (track + 1 == size)) [
  | inl last ↦
      let e = ==→eq (track + 1) size last in
      rw last (offset_back track 1 size (size - 1) (omega arith) (omega arith))
  | inr more ↦ rw more (offset_on track (track + 1 + 1) size 1 (omega arith) (omega arith) refl)
]

offset_before :
    (track size : ℕ)
    → track < size
    → 3 ≤ size
    → track_offset track (track_before size track + 1) size ≡ 1
offset_before track size h k = elim (Bool-cases (track == 0)) [
  | inl first ↦
      let e = ==→eq track 0 first in
      rw first (
        offset_on track (size - 1 + 1) size (size - 1) (omega arith) (omega arith) (omega arith)
        ∙ omega arith)
  | inr more ↦ rw more (offset_back track (track - 1 + 1) size 1 (omega arith) (ground arith))
]

-- With room the command is appended, and nothing else changes.
push_simple_lem :
    (app : App) (msg : ℕ)
    → Fifo.Inv.IsValid app.simple_mbus_msg_fifo
    → length (Fifo.Refine.contents app.simple_mbus_msg_fifo) + 1 ≤ app.simple_mbus_msg_fifo.capacity
    → push_simple_mbus_msg app msg
      ≡ record app { simple_mbus_msg_fifo = Fifo.push app.simple_mbus_msg_fifo msg }
unfolding push_simple_mbus_msg
push_simple_lem app msg v room =
    let full = Fifo.Refine.is_full_lem v in
    let free : Fifo.is_full app.simple_mbus_msg_fifo ≡ false = full ∙ not_full _ _ room in
    rw free refl
  where
    not_full : (n m : ℕ) → n + 1 ≤ m → (n == m) ≡ false
    not_full n m h = ground arith

next_track :
    (track size : ℕ)
    → track < size
    → size < 256
    → (if leb size (u8 (track + 1)) then 0 else u8 (track + 1)) ≡ track_after size track
next_track track size h w = ground arith

-- The track after this one, or the one before it.
abbrev pub track_beside : App → Bool → ℕ
track_beside app onward =
    if onward then track_after app.num_tracks app.track else track_before app.num_tracks app.track

track_queued :
    (app : App) (body : SetDiskTrack) (onward : Bool)
    → IsValid app
    → 3 ≤ app.num_tracks
    → (not (body.disk == 0) && not (body.disk == app.disk)) ≡ false
    → length (Fifo.Refine.contents app.simple_mbus_msg_fifo) + 1 ≤ app.simple_mbus_msg_fifo.capacity
    → body.track ≡ track_beside app onward + 1
    → set_disk_track app body ≡ record app {
      track = track_beside app onward;
      simple_mbus_msg_fifo = Fifo.push app.simple_mbus_msg_fifo (if onward then next else prev);
    }
unfolding set_disk_track move_track
track_queued app body true v big here room e =
    let offset =
      ap (λ w. track_offset app.track w app.num_tracks) e
      ∙ offset_after app.track app.num_tracks v.track_in big in
    let far : ltb (app.num_tracks / 2) (app.num_tracks - 1) ≡ true = ground arith in
    let app1 = record app { simple_mbus_msg_fifo = Fifo.push app.simple_mbus_msg_fifo next } in
    rw (here, offset, far, push_simple_lem app next v.simple room)
      (ap (λ t. record app1 { track = t })
        (next_track app.track app.num_tracks v.track_in v.tracks))
track_queued app body false v big here room e =
    let offset =
      ap (λ w. track_offset app.track w app.num_tracks) e
      ∙ offset_before app.track app.num_tracks v.track_in big in
    let near : ltb (app.num_tracks / 2) 1 ≡ false = ground arith in
    let app1 = record app { simple_mbus_msg_fifo = Fifo.push app.simple_mbus_msg_fifo prev } in
    let before : (if app.track == 0 then u8 (app.num_tracks - 1) else app.track - 1)
        ≡ track_before app.num_tracks app.track =
      ground arith in
    rw (here, offset, near, push_simple_lem app prev v.simple room)
      (ap (λ t. record app1 { track = t }) before)

-- The command is carried out: the driver queues it for the module.
step_carried :
    (app : App) (onward : Bool)
    → Fifo.Inv.IsValid app.rn52.avrcp_cmd_fifo
    → HasPlace app.rn52
    → let (app', got) = carry_out app (if onward then next else prev) in
      (app'.track ≡ app.track)
      × (app'.simple_mbus_msg_fifo ≡ app.simple_mbus_msg_fifo)
      × (got ≡ false)
      × (commands app'.rn52
          ≡ commands app.rn52
            ++ (if is_connected app.rn52
                then (if onward then rn52_avrcp_cmd_next else rn52_avrcp_cmd_prev) ∷ []
                else []))
unfolding carry_out avrcp_next avrcp_prev
step_carried app true v place =
    (refl, refl, refl, push_if_connected_lem app.rn52 rn52_avrcp_cmd_next v place)
step_carried app false v place =
    (refl, refl, refl, push_if_connected_lem app.rn52 rn52_avrcp_cmd_prev v place)

-- A message that asks for the track after this one queues the command `next` for the Bluetooth module,
-- and one that asks for the track before this one the command `prev`, behind the commands that wait, if
-- the far end is connected, and nothing otherwise: the message is decoded, and the simple command that
-- it leaves, with none held before, is taken and carried out, which the state machine does not see.
-- The application keeps the track that was asked for. Both go round at the ends of a disk of at least
-- three tracks. The message names this disk or none, and there is room in both queues.
pub track_asked :
    (app : App) (body : SetDiskTrack) (onward : Bool)
    → IsValid app
    → 3 ≤ app.num_tracks
    → (not (body.disk == 0) && not (body.disk == app.disk)) ≡ false
    → Fifo.Refine.contents app.simple_mbus_msg_fifo ≡ []
    → 1 ≤ app.simple_mbus_msg_fifo.capacity
    → HasPlace app.rn52
    → body.track ≡ track_beside app onward + 1
    → Returns
        (λ (app', got).
          (app'.track ≡ track_beside app onward)
          × (got ≡ none)
          × (Fifo.Refine.contents app'.simple_mbus_msg_fifo ≡ [])
          × (commands app'.rn52
              ≡ commands app.rn52
                ++ (if is_connected app.rn52
                    then (if onward then rn52_avrcp_cmd_next else rn52_avrcp_cmd_prev) ∷ []
                    else [])))
        (take_command (set_disk_track app body))
unfolding take_command
track_asked app body onward v big here none_held one place e =
    let cmd : ℕ = if onward then next else prev in
    let room : length (Fifo.Refine.contents app.simple_mbus_msg_fifo) + 1
        ≤ app.simple_mbus_msg_fifo.capacity =
      omega (arith, one, ap length none_held) in
    let held = contents-push cmd v.simple room ∙ ap (λ l. l ++ cmd ∷ []) none_held in
    let w = Fifo.Inv.push-IsValid cmd v.simple in
    let (f, pops, rest) = Fifo.Refine.pop_cons (Fifo.push app.simple_mbus_msg_fifo cmd) w held in
    let app1 = record app { track = track_beside app onward; simple_mbus_msg_fifo = f } in
    let (kept, same, none_got, sent) = step_carried app1 onward v.commands place in
    rw
      (
        track_queued app body onward v big here room e,
        Fifo.Refine.is_empty_cons w held,
        pops,
        none_got,
      )
      (kept, refl, ap Fifo.Refine.contents same ∙ rest, sent)
