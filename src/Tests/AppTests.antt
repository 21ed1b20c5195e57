-- ===== src/Tests/AppTests.antt =====
-- The application of target_teensy3/src/app_demo.cpp at concrete inputs.
use diy_acura_bluetooth.Prelude.{
  ℕ, ◌≡◌, refl, true, false, List, [], ◌∷◌, ◌++◌, none, Returns, replicate, arith, if◌then◌else◌,
}
use diy_acura_bluetooth.Fifo
use diy_acura_bluetooth.Fifo.{Fifo}
use diy_acura_bluetooth.Link.Types.{MsgBody, RxMsg, TxMsg, SetDiskTrack}
use diy_acura_bluetooth.Rn52.State.{Rn52State, rn52_avrcp_cmd_pause, rn52_avrcp_cmd_next}
use diy_acura_bluetooth.Rn52.Commands.{is_connected}
use diy_acura_bluetooth.Rn52.Asked.{commands}
use diy_acura_bluetooth.App.State.{App, AppState, play, stop}
use diy_acura_bluetooth.App.Decode.{set_disk_track}
use diy_acura_bluetooth.App.Update.{update, take_command}
use diy_acura_bluetooth.App.Inv.{IsValid}
use diy_acura_bluetooth.App.Total
use diy_acura_bluetooth.App.Playing
use diy_acura_bluetooth.App.Playing.{announcement, stopped_state, updated_twice}
use diy_acura_bluetooth.App.Tracks

abbrev fifo_of : {A : Type 0} → List A → ℕ → ℕ → Fifo A
fifo_of buffer size count = record {
  id = "test";
  buffer = buffer;
  buffer_end = size;
  capacity = size;
  count = count;
  element_size = 1;
  head = count;
  tail = 0;
}

abbrev blank_msg : RxMsg
blank_msg = record {
  err_id = 0;
  parsed = record {
    direction_h2c = false;
    msg_type = 0;
    body = MsgBody.disk_info (record { disk = 0; tracks = 0; minutes = 0; seconds = 0; flags = 0 });
  };
  raw_nibbles = record { nibbles = replicate 32 0; num_nibbles = 0 };
}

abbrev blank_tx : TxMsg
blank_tx = record { nibbles = record { pack_nibbles = 0; num_nibbles = 0 } }

-- One simple command is held, on the last of 16 tracks.
abbrev app_with : AppState → ℕ → App
app_with state cmd = record {
  state = state;
  timer = 0;
  simple_mbus_msg_fifo = fifo_of (cmd ∷ replicate 3 0) 4 1;
  link = record {
    rx_msg_fifo = fifo_of (replicate 4 blank_msg) 4 0;
    tx_msg_fifo = fifo_of (replicate 16 blank_tx) 16 0;
    nibbles = record { nibbles = replicate 32 0; num_nibbles = 0 };
    rx_not_tx_mode = true;
  };
  rn52 = record {
    state = Rn52State.running;
    mode_cmd_not_data = true;
    connection_status = 0x0400;
    ext_feat = 0x0080;
    return_state = Rn52State.running;
    rx_str_len = 0;
    rx_str = replicate 64 0;
    tx_cmd = replicate 16 0;
    event_lo_milli_sec_time_stamp = 0;
    cmd2cmd_milli_sec_time_stamp = 0;
    reply_milli_sec_time_stamp = 0;
    avrcp_cmd_fifo = fifo_of (replicate 16 0) 16 0;
  };
  noshuttle = false;
  repeat_all = false;
  repeat_one = false;
  disk = 3;
  num_tracks = 16;
  track = 15;
  index = 0;
  seconds = 75;
}

app_with-IsValid : (state : AppState) (cmd : ℕ) → IsValid (app_with state cmd)
app_with-IsValid state cmd = record {
  simple = omega arith;
  rx = omega arith;
  tx = omega arith;
  commands = omega arith;
  tracks = omega arith;
  track_in = omega arith;
}

app_update_total_example : Returns IsValid (update (app_with AppState.playing 11))
app_update_total_example =
    Total.app_update_total (app_with AppState.playing 11) (app_with-IsValid AppState.playing 11)

starts_playing_example :
    Returns
      (λ app'.
        (app'.state ≡ AppState.playing)
        × (app'.timer ≡ 0)
        × (Fifo.Refine.contents app'.link.tx_msg_fifo
            ≡ [] ++ announcement (app_with AppState.stopped play)))
      (updated_twice (app_with AppState.stopped play))
starts_playing_example =
    Playing.starts_playing (app_with AppState.stopped play) (app_with-IsValid AppState.stopped play)
      refl refl refl (omega arith)

stops_playing_example :
    let app = app_with AppState.playing stop in
    Returns
      (λ app'.
        (app'.state ≡ AppState.stopped)
        × (commands app'.rn52
            ≡ commands app.rn52
              ++ (if is_connected app.rn52 then rn52_avrcp_cmd_pause ∷ [] else []))
        × (Fifo.Refine.contents app'.link.tx_msg_fifo ≡ [] ++ stopped_state ∷ []))
      (updated_twice app)
stops_playing_example =
    Playing.stops_playing (app_with AppState.playing stop) (app_with-IsValid AppState.playing stop)
      refl refl refl (omega arith) (omega arith)

-- From track 16 on to track 1.
abbrev first_track : SetDiskTrack
first_track = record { disk = 3; track = 1; pause = false; play = true; random = false }

-- No simple command is held.
abbrev calm_app : App
calm_app = record (app_with AppState.playing play) {
  simple_mbus_msg_fifo = fifo_of (replicate 4 0) 4 0;
}

calm_app-IsValid : IsValid calm_app
calm_app-IsValid = record {
  simple = omega arith;
  rx = omega arith;
  tx = omega arith;
  commands = omega arith;
  tracks = omega arith;
  track_in = omega arith;
}

track_asked_example :
    Returns
      (λ (app', got).
        (app'.track ≡ 0)
        × (got ≡ none)
        × (Fifo.Refine.contents app'.simple_mbus_msg_fifo ≡ [])
        × (commands app'.rn52
            ≡ commands calm_app.rn52
              ++ (if is_connected calm_app.rn52 then rn52_avrcp_cmd_next ∷ [] else [])))
      (take_command (set_disk_track calm_app first_track))
track_asked_example =
    Tracks.track_asked calm_app first_track true calm_app-IsValid (omega arith) refl refl
      (omega arith) (omega arith) refl
