-- ===== src/App/Playing.antt =====
-- The state machine of `app_update`: how playing starts and stops.
use diy_acura_bluetooth.Prelude.{
  ℕ, ◌+◌, ◌≤◌, ◌≡◌, refl, ap, ◌∙◌, true, List, [], ◌∷◌, ◌++◌, Option, none, some, length, ◌==◌,
  ◌>>=◌, if◌then◌else◌, Returns,
}
use diy_acura_bluetooth.Fifo
use diy_acura_bluetooth.Fifo.{Fifo}
use diy_acura_bluetooth.Fifo.Many.{push_all, contents-push_all}
use diy_acura_bluetooth.Link.Types.{TxMsg}
use diy_acura_bluetooth.Link.Core.{
  rx_is_empty, tx_push, tx_play_state, tx_changing, tx_ack_wait, tx_disk_info,
}
use diy_acura_bluetooth.Link.Build
use diy_acura_bluetooth.Rn52.State.{rn52_avrcp_cmd_pause}
use diy_acura_bluetooth.Rn52.Commands.{is_connected, avrcp_pause}
use diy_acura_bluetooth.Rn52.Asked.{commands, HasPlace, push_if_connected_lem}
use diy_acura_bluetooth.App.State.{App, AppState, play, stop}
use diy_acura_bluetooth.App.Update.{take_message, take_command, carry_out, announce, step, update}
use diy_acura_bluetooth.App.Inv.{IsValid}

no_items :
    {A : Type 0} {f : Fifo A}
    → Fifo.Inv.IsValid f
    → Fifo.Refine.contents f ≡ []
    → Fifo.is_empty f ≡ true
no_items v e = Fifo.Refine.is_empty_lem v ∙ ap (λ l. length l == 0) e

-- An update that finds no message, and a command that only the state machine sees.
update-command :
    (app : App) (cmd : ℕ) {q : List ℕ}
    → ((a : App) → carry_out a cmd ≡ (a, true))
    → IsValid app
    → Fifo.Refine.contents app.link.rx_msg_fifo ≡ []
    → Fifo.Refine.contents app.simple_mbus_msg_fifo ≡ cmd ∷ q
    → (f : Fifo ℕ) × (update app
        ≡ some (step app.state (record app { simple_mbus_msg_fifo = f }) (some cmd)))
      × (Fifo.Refine.contents f ≡ q)
      × Fifo.Inv.IsValid f
unfolding update take_message take_command rx_is_empty
update-command app cmd carried v none_in c =
    let (f, p, rest) = Fifo.Refine.pop_cons app.simple_mbus_msg_fifo v.simple c in
    (
      f,
      rw
          (
            no_items v.rx none_in,
            Fifo.Refine.is_empty_cons v.simple c,
            p,
            carried (record app { simple_mbus_msg_fifo = f }),
          )
          refl,
      rest,
      Fifo.Inv.pop-IsValid {r = (cmd, f)} v.simple p,
    )

-- An update that finds neither a message nor a command.
update-quiet :
    (app : App)
    → Fifo.Inv.IsValid app.link.rx_msg_fifo
    → Fifo.Inv.IsValid app.simple_mbus_msg_fifo
    → Fifo.Refine.contents app.link.rx_msg_fifo ≡ []
    → Fifo.Refine.contents app.simple_mbus_msg_fifo ≡ []
    → update app ≡ some (step app.state app none)
unfolding update take_message take_command rx_is_empty
update-quiet app vr vs none_in none_left = rw (no_items vr none_in, no_items vs none_left) refl

-- Two updates in a row.
abbrev pub updated_twice : App → Option App
updated_twice app = update app >>= λ app1. update app1

-- What the head unit is told when a disk starts: the disk and the track, the disk's tracks and
-- time, and that it plays, with a wait after each of the first two.
abbrev pub announcement : App → List TxMsg
announcement app =
    Build.changing app.disk app.track
    ∷ Build.ack_wait
    ∷ Build.disk_info app.disk app.num_tracks app.seconds
    ∷ Build.ack_wait
    ∷ Build.play_state app.track app.index app.seconds true
    ∷ []

play_carried : (a : App) → carry_out a play ≡ (a, true)
unfolding carry_out
play_carried a = refl

stop_carried : (a : App) → carry_out a stop ≡ (a, true)
unfolding carry_out
stop_carried a = refl

announce_lem :
    (app : App)
    → Fifo.Inv.IsValid app.link.tx_msg_fifo
    → length (Fifo.Refine.contents app.link.tx_msg_fifo) + 5 ≤ app.link.tx_msg_fifo.capacity
    → Fifo.Refine.contents (announce app).link.tx_msg_fifo
      ≡ Fifo.Refine.contents app.link.tx_msg_fifo ++ announcement app
unfolding announce push_all tx_push tx_changing tx_ack_wait tx_disk_info tx_play_state
announce_lem app v room = contents-push_all (announcement app) v room

announce_state :
    (app : App) → ((announce app).state ≡ AppState.playing) × ((announce app).timer ≡ 0)
unfolding announce
announce_state app = (refl, refl)

step-play :
    (app : App)
    → app.state ≡ AppState.stopped
    → step app.state app (some play) ≡ record app { state = AppState.start_playing }
unfolding step
step-play app s = ap (λ st. step st app (some play)) s

-- The head unit's command to play starts a disk. When the application is stopped and this is the one
-- command that it holds, two updates lead to playing with the timer at 0, and hand the link five
-- messages in order: the change to the disk and track, the disk's data and the play state, with a
-- wait after each of the first two. No message of the link is pending, and there is room for the five.
pub starts_playing :
    (app : App)
    → IsValid app
    → app.state ≡ AppState.stopped
    → Fifo.Refine.contents app.link.rx_msg_fifo ≡ []
    → Fifo.Refine.contents app.simple_mbus_msg_fifo ≡ play ∷ []
    → length (Fifo.Refine.contents app.link.tx_msg_fifo) + 5 ≤ app.link.tx_msg_fifo.capacity
    → Returns
        (λ app'.
          (app'.state ≡ AppState.playing)
          × (app'.timer ≡ 0)
          × (Fifo.Refine.contents app'.link.tx_msg_fifo
              ≡ Fifo.Refine.contents app.link.tx_msg_fifo ++ announcement app))
        (updated_twice app)
unfolding step
starts_playing app v s none_in c room =
    let (f, first, rest, w) = update-command app play play_carried v none_in c in
    let app0 = record app { simple_mbus_msg_fifo = f } in
    let app1 = record app0 { state = AppState.start_playing } in
    let told = announce_state app1 in
    rw (first, step-play app0 s, update-quiet app1 v.rx w none_in rest)
      (told.0, told.1, announce_lem app1 v.tx room)

step-stop :
    (app : App)
    → app.state ≡ AppState.playing
    → step app.state app (some stop) ≡ record app { state = AppState.mbus_says_stop }
unfolding step
step-stop app s = ap (λ st. step st app (some stop)) s

-- The play state "stopped": it names no track and no time.
abbrev pub stopped_state : TxMsg
stopped_state = record { nibbles = record { pack_nibbles = 0x992000000000009; num_nibbles = 15 } }

step-says_stop :
    (app : App)
    → Fifo.Inv.IsValid app.link.tx_msg_fifo
    → length (Fifo.Refine.contents app.link.tx_msg_fifo) + 1 ≤ app.link.tx_msg_fifo.capacity
    → Fifo.Inv.IsValid app.rn52.avrcp_cmd_fifo
    → HasPlace app.rn52
    → let app' = step AppState.mbus_says_stop app none in
      (app'.state ≡ AppState.stopped)
      × (commands app'.rn52
          ≡ commands app.rn52 ++ (if is_connected app.rn52 then rn52_avrcp_cmd_pause ∷ [] else []))
      × (Fifo.Refine.contents app'.link.tx_msg_fifo
          ≡ Fifo.Refine.contents app.link.tx_msg_fifo ++ stopped_state ∷ [])
unfolding step push_all tx_push tx_play_state avrcp_pause Build.play_state
step-says_stop app v room w place = (
  refl,
  push_if_connected_lem app.rn52 rn52_avrcp_cmd_pause w place,
  contents-push_all (stopped_state ∷ []) v room,
)

-- The head unit's command to stop ends it. When the application plays and this is the one command
-- that it holds, two updates lead to the stopped state and hand the link the play state "stopped",
-- which names no track and no time; the command to pause is queued for the Bluetooth module behind
-- those that wait, if the far end is connected, and none otherwise. No message that the link received
-- waits to be taken, and there is room for one item more in the queue of the link and in that of the
-- driver.
pub stops_playing :
    (app : App)
    → IsValid app
    → app.state ≡ AppState.playing
    → Fifo.Refine.contents app.link.rx_msg_fifo ≡ []
    → Fifo.Refine.contents app.simple_mbus_msg_fifo ≡ stop ∷ []
    → length (Fifo.Refine.contents app.link.tx_msg_fifo) + 1 ≤ app.link.tx_msg_fifo.capacity
    → HasPlace app.rn52
    → Returns
        (λ app'.
          (app'.state ≡ AppState.stopped)
          × (commands app'.rn52
              ≡ commands app.rn52
                ++ (if is_connected app.rn52 then rn52_avrcp_cmd_pause ∷ [] else []))
          × (Fifo.Refine.contents app'.link.tx_msg_fifo
              ≡ Fifo.Refine.contents app.link.tx_msg_fifo ++ stopped_state ∷ []))
        (updated_twice app)
stops_playing app v s none_in c room place =
    let (f, first, rest, w) = update-command app stop stop_carried v none_in c in
    let app0 = record app { simple_mbus_msg_fifo = f } in
    let app1 = record app0 { state = AppState.mbus_says_stop } in
    rw (first, step-stop app0 s, update-quiet app1 v.rx w none_in rest)
      (step-says_stop app1 v.tx room v.commands place)
