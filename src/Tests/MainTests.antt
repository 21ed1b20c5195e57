-- ===== src/Tests/MainTests.antt =====
-- The main loop of app_demo.cpp from its set-up on.
use Prim.Native.String.{String}
use diy_acura_bluetooth.Prelude.{
  [], ℕ, ◌≡◌, refl, true, false, List, ◌∷◌, some, replicate, Returns, arith,
}
use diy_acura_bluetooth.Fifo
use diy_acura_bluetooth.Fifo.{Fifo}
use diy_acura_bluetooth.Phy.State.{RxState, TxState}
use diy_acura_bluetooth.Phy.Rx
use diy_acura_bluetooth.Phy.Tx
use diy_acura_bluetooth.Phy.Tx.Inv.{drives, is_off}
use diy_acura_bluetooth.Phy.Join.{
  mbus_phy_init, mbus_phy_rx_enable, mbus_phy_update, mbus_phy_rx_is_empty, mbus_phy_rx_is_busy,
  rx_busy_in, mbus_phy_tx_is_busy,
}
use diy_acura_bluetooth.Link.Types.{MsgBody, RxMsg, TxMsg}
use diy_acura_bluetooth.Link.Core.{
  tx_is_empty, rx_is_empty, init as link_init, update as link_update,
}
use diy_acura_bluetooth.Rn52.State.{Rn52, Rn52State}
use diy_acura_bluetooth.Rn52.Commands.{init as rn52_init, reconnect_last, avrcp_cmd_fifo_push}
use diy_acura_bluetooth.App.State.{App, AppState, init as app_init}
use diy_acura_bluetooth.App.Main.{
  Machine, Inputs, Memory, set_up, round, pass_time, blink, poll_phy, hand_on_nibble, poll_link,
  turn, poll_app, poll_rn52,
}
use diy_acura_bluetooth.App.Update.{take_message, take_command, step, update as app_update}
use diy_acura_bluetooth.Rn52.Update.{store_char, dispatch, update as rn52_update}
use diy_acura_bluetooth.App.Main.Inv.{IsSound}
use diy_acura_bluetooth.App.Main.Safety
use diy_acura_bluetooth.App.Main.Safety.{IsDeclared, Reach, here, later, Started, started}

abbrev pub empty_msg : RxMsg
empty_msg = record {
  err_id = 0;
  parsed = record {
    direction_h2c = false;
    msg_type = 0;
    body = MsgBody.disk_info (record { disk = 0; tracks = 0; minutes = 0; seconds = 0; flags = 0 });
  };
  raw_nibbles = record { nibbles = replicate 32 0; num_nibbles = 0 };
}

abbrev pub empty_tx : TxMsg
empty_tx = record { nibbles = record { pack_nibbles = 0; num_nibbles = 0 } }

abbrev pub set_up_fifo : {A : Type 0} → String → List A → ℕ → Fifo A
set_up_fifo id buffer size = record {
  id = id;
  buffer = buffer;
  buffer_end = size;
  capacity = size;
  count = 0;
  element_size = 1;
  head = 0;
  tail = 0;
}

abbrev commands_fifo : Fifo ℕ
commands_fifo = set_up_fifo "rn52AvrcpCmdFifo" (replicate 16 0) 16

-- The driver with a queue of commands, before and after its set-up.
abbrev driver_with : Fifo ℕ → Rn52
driver_with fifo = record {
  state = Rn52State.starting_up;
  mode_cmd_not_data = false;
  connection_status = 0;
  ext_feat = 0;
  return_state = Rn52State.starting_up;
  rx_str_len = 0;
  rx_str = replicate 64 0;
  tx_cmd = replicate 16 0;
  event_lo_milli_sec_time_stamp = 0;
  cmd2cmd_milli_sec_time_stamp = 0;
  reply_milli_sec_time_stamp = 0;
  avrcp_cmd_fifo = fifo;
}

abbrev app_on : Fifo ℕ → App
app_on fifo = record {
  state = AppState.start;
  timer = 0;
  simple_mbus_msg_fifo = set_up_fifo "simpleMbusMsg" (replicate 32 0) 32;
  link = record {
    rx_msg_fifo = set_up_fifo "mbusLinkRx" (replicate 4 empty_msg) 4;
    tx_msg_fifo = set_up_fifo "mbusLinkTx" (replicate 16 empty_tx) 16;
    nibbles = record { nibbles = replicate 32 0; num_nibbles = 0 };
    rx_not_tx_mode = true;
  };
  rn52 = driver_with fifo;
  noshuttle = false;
  repeat_all = false;
  repeat_one = false;
  disk = 3;
  num_tracks = 16;
  track = 0;
  index = 0;
  seconds = 0;
}

abbrev memory : Memory
memory = record {
  rx_bytes = replicate 256 0;
  tx_bytes = replicate 256 0;
  rx_msgs = replicate 4 empty_msg;
  tx_msgs = replicate 16 empty_tx;
  commands = replicate 16 0;
  simple_msgs = replicate 32 0;
  nibbles = record { nibbles = replicate 32 0; num_nibbles = 0 };
  rn52 = driver_with commands_fifo;
  app = app_on commands_fifo;
}

-- The machine before its first round: the command to reconnect is queued.
abbrev first : Machine
first = record {
  phy = record {
    tx = record {
      state = TxState.disabled;
      bit_shifter = 1;
      micro_sec_time_stamp = 0;
      byte_fifo = set_up_fifo "mbusPhyTx" (replicate 256 0) 256;
    };
    rx = record {
      state = RxState.idle;
      bit_shifter = 8;
      micro_sec_time_stamp = 0;
      byte_fifo = set_up_fifo "mbusPhyRx" (replicate 256 0) 256;
    };
  };
  app = app_on (record commands_fifo { buffer = 6 ∷ replicate 15 0; count = 1; head = 1 });
  blink_milli_sec_elapsed = 0;
  drive_mbus_pin_lo = false;
  rn52_cmd_mode_pin = true;
  led_pin = false;
  mbus_drive_lo_pin = false;
  rn52_cmd_lo_pin = true;
}

memory-IsDeclared : IsDeclared memory
memory-IsDeclared = record {
  rx_bytes = refl;
  tx_bytes = refl;
  rx_msgs = refl;
  tx_msgs = refl;
  commands = refl;
  simple_msgs = refl;
  rx_str = refl;
  tx_cmd = refl;
}

set_up_run : set_up 1 1 memory ≡ some first
unfolding set_up mbus_phy_init Rx.init Tx.init link_init rn52_init app_init mbus_phy_rx_enable
    Fifo.nomalloc_init reconnect_last avrcp_cmd_fifo_push Fifo.is_full Fifo.push
set_up_run = refl

first-Started : Started first
first-Started = started 1 1 memory (omega arith) (omega arith) memory-IsDeclared set_up_run

-- A quiet bus, and a character of the serial line.
abbrev quiet_inputs : Inputs
quiet_inputs = record {
  passed = 1;
  micros = 5000;
  millis = 5;
  mbus_sense_pin = true;
  rn52_event_pin = true;
  serial = some 67;
  scratch = empty_msg;
}

-- The same with the bus low.
abbrev low_inputs : Inputs
low_inputs = record quiet_inputs { mbus_sense_pin = false }

-- After a round: the receiver has seen the bus fall, the application has started, and the driver has
-- stored the character and asks for the command mode.
abbrev second : Machine
second = record first {
  phy = record first.phy {
    rx = record first.phy.rx { state = RxState.awaiting_rise; micro_sec_time_stamp = 5000 };
  };
  app = record first.app {
    state = AppState.stopped;
    timer = 1;
    rn52 = record first.app.rn52 {
      state = Rn52State.switch_to_cmd_mode;
      return_state = Rn52State.reboot;
      rx_str = 67 ∷ replicate 63 0;
      rx_str_len = 1;
    };
  };
  blink_milli_sec_elapsed = 1;
}

first_run : round low_inputs first ≡ some (second, [])
unfolding round pass_time blink poll_phy mbus_phy_update Rx.update Rx.edges Rx.fall Rx.timeouts
    Tx.update Tx.dispatch hand_on_nibble mbus_phy_rx_is_empty Rx.is_empty Fifo.is_empty poll_link
    mbus_phy_rx_is_busy rx_busy_in mbus_phy_tx_is_busy Tx.is_busy Tx.busy_in link_update tx_is_empty
    turn poll_app app_update take_message rx_is_empty take_command step poll_rn52 rn52_update
    store_char dispatch
first_run = refl

second-Reach : Reach first second
second-Reach =
    later low_inputs [] here (record { nibble = omega arith; character = omega arith }) first_run

quiet_while_receiving_example :
    (second.mbus_drive_lo_pin ≡ false) × (is_off second.phy.tx.state ≡ true)
quiet_while_receiving_example =
    Safety.quiet_while_receiving first second first-Started second-Reach refl

main_goes_on_example :
    Returns
      (λ q. IsSound q.0 × (q.0.mbus_drive_lo_pin ≡ drives q.0.phy.tx.state))
      (round quiet_inputs second)
main_goes_on_example =
    Safety.main_goes_on first second quiet_inputs first-Started second-Reach
      (record { nibble = omega arith; character = omega arith })
