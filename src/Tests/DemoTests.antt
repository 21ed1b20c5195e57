-- ===== src/Tests/DemoTests.antt =====
-- The demonstration programs, from their set-up to a round in which the bus goes low, and in rounds
-- in which codes are there.
use diy_acura_bluetooth.Prelude.{
  ℕ, ◌≡◌, refl, List, drop, Bool, true, false, [], ◌∷◌, ◌++◌, some, replicate, All, Returns, arith,
}
use diy_acura_bluetooth.Fifo
use diy_acura_bluetooth.Fifo.{Fifo}
use diy_acura_bluetooth.Phy.State.{RxState, TxState, mbus_end_msg_code}
use diy_acura_bluetooth.Phy.Rx
use diy_acura_bluetooth.Phy.Tx
use diy_acura_bluetooth.Phy.Tx.Inv.{is_off}
use diy_acura_bluetooth.Phy.Join.{
  mbus_phy_init, mbus_phy_rx_enable, mbus_phy_update, mbus_phy_rx_is_empty, mbus_phy_rx_is_busy,
  rx_busy_in, mbus_phy_tx_is_busy,
}
use diy_acura_bluetooth.Link.Core.{
  init as link_init, update as link_update, tx_is_empty, rx_is_empty,
}
use diy_acura_bluetooth.Demos.Station.{
  Station, Inputs, Memory, set_up, pass_time, blink, poll_phy, hand_on_nibble,
}
use diy_acura_bluetooth.Demos.Station.Inv.{Fits}
use diy_acura_bluetooth.Demos.Station.Start.{
  IsListening, Started-IsListening, IsDeclared, here, later, Started, started,
}
use diy_acura_bluetooth.Demos.Ping
use diy_acura_bluetooth.Link.Types.{RxMsg, msgtype_ping}
use diy_acura_bluetooth.Link.Core.Send.{framed, unpacked}
use diy_acura_bluetooth.Link.Core.Receive.{receive}
use diy_acura_bluetooth.Demos.Toggle
use diy_acura_bluetooth.Demos.Toggle.{packed}
use diy_acura_bluetooth.Demos.Toggle.Misread.{GotError}
use diy_acura_bluetooth.Tests.BusTests.{quiet_link, receiver-CanReceive}
use diy_acura_bluetooth.Demos.Sniffer
use diy_acura_bluetooth.Demos.Bridge
use diy_acura_bluetooth.Demos.Bridge.{Bridge}
use diy_acura_bluetooth.Demos.Bridge.Line.{IsDigit, nibbles, type_line}
use diy_acura_bluetooth.Phy.Ascii.{ascii2txnibble}
use diy_acura_bluetooth.Demos.Sniffer.Listening.{texts}
use diy_acura_bluetooth.Demos.Station.Heard.{gathered, codes_held}
use diy_acura_bluetooth.Tests.MainTests.{empty_msg, empty_tx, set_up_fifo}

abbrev memory : Memory
memory = record {
  rx_bytes = replicate 64 0;
  tx_bytes = replicate 64 0;
  rx_msgs = replicate 2 empty_msg;
  tx_msgs = replicate 2 empty_tx;
  nibbles = record { nibbles = replicate 32 0; num_nibbles = 0 };
  msg_str = replicate 256 0;
}

-- The station with a receiver in `state` since `us`.
abbrev station_in : RxState → ℕ → Station
station_in state us = record {
  phy = record {
    tx = record {
      state = TxState.disabled;
      bit_shifter = 1;
      micro_sec_time_stamp = 0;
      byte_fifo = set_up_fifo "mbusPhyTx" (replicate 64 0) 64;
    };
    rx = record {
      state = state;
      bit_shifter = 8;
      micro_sec_time_stamp = us;
      byte_fifo = set_up_fifo "mbusPhyRx" (replicate 64 0) 64;
    };
  };
  link = record {
    rx_msg_fifo = set_up_fifo "mbusLinkRx" (replicate 2 empty_msg) 2;
    tx_msg_fifo = set_up_fifo "mbusLinkTx" (replicate 2 empty_tx) 2;
    nibbles = record { nibbles = replicate 32 0; num_nibbles = 0 };
    rx_not_tx_mode = true;
  };
  blink_milli_sec_elapsed = 0;
  drive_mbus_pin_lo = false;
  led_pin = false;
  mbus_drive_lo_pin = false;
  msg_str = replicate 256 0;
}

abbrev first : Station
first = station_in RxState.idle 0

abbrev second : Station
second = station_in RxState.awaiting_rise 5000

memory-IsDeclared : IsDeclared memory
memory-IsDeclared = record {
  rx_bytes = refl;
  tx_bytes = refl;
  rx_msgs = refl;
  tx_msgs = refl;
  nibbles = omega arith;
  msg_str = refl;
}

set_up_run : set_up 1 1 memory ≡ some first
unfolding set_up mbus_phy_init Rx.init Tx.init link_init mbus_phy_rx_enable Fifo.nomalloc_init
set_up_run = refl

first-Started : Started first
first-Started = started 1 1 memory (omega arith) (omega arith) memory-IsDeclared set_up_run

-- The bus at a level at a time.
abbrev polled_at : ℕ → Bool → Inputs
polled_at us pin_hi = record {
  passed = 0;
  micros = us;
  mbus_sense_pin = pin_hi;
  scratch = empty_msg;
}

any-Fits :
    (state : RxState) (us now : ℕ) (pin_hi : Bool)
    → Fits (station_in state us) (polled_at now pin_hi)
any-Fits state us now pin_hi = record {
  nibble = omega arith;
  scratch = record { raw = omega arith; body = omega arith };
}

ping_run : Ping.round (polled_at 5000 false) first ≡ some (second, [])
unfolding Ping.round pass_time blink poll_phy mbus_phy_update Rx.update Rx.edges Rx.fall Rx.timeouts
    Tx.update Tx.dispatch hand_on_nibble mbus_phy_rx_is_empty Rx.is_empty Fifo.is_empty
    Ping.poll_link mbus_phy_rx_is_busy rx_busy_in mbus_phy_tx_is_busy Tx.is_busy Tx.busy_in
    link_update tx_is_empty Ping.switch Ping.take_message rx_is_empty
ping_run = refl

pong_never_sent_example :
    Returns
      (λ q. (is_off q.0.phy.tx.state ≡ true) × (q.0.mbus_drive_lo_pin ≡ false))
      (Ping.round (polled_at 7000 true) second)
pong_never_sent_example =
    Ping.Silent.pong_never_sent first second (polled_at 7000 true) first-Started
      (later (polled_at 5000 false) [] here (any-Fits RxState.idle 0 5000 false) ping_run)
      (any-Fits RxState.awaiting_rise 5000 7000 true)

-- The sniffer holds the nibbles 9, 8 and 1, a ping with its checksum, and the end code comes next.
abbrev hearing : Station
hearing = record first {
  phy = record first.phy {
    rx = record first.phy.rx {
      byte_fifo = record first.phy.rx.byte_fifo {
        buffer = mbus_end_msg_code ∷ replicate 63 0;
        count = 1;
        head = 1;
      };
    };
  };
  link = record first.link {
    nibbles = record { nibbles = 9 ∷ 8 ∷ 1 ∷ replicate 29 0; num_nibbles = 3 };
  };
}

hearing-IsListening : IsListening hearing
hearing-IsListening =
    let (s, none_held) = Started-IsListening first-Started in
    (
      record {
        rx = record {
          fifo = record { valid = omega arith; codes = (omega arith, tt) };
          shifter_low = s.rx.shifter_low;
          shifter_high = s.rx.shifter_high;
        };
        tx = s.tx;
        off = s.off;
        pin = s.pin;
        link = record {
          receives = s.link.receives;
          none_pending = s.link.none_pending;
          messages = s.link.messages;
          parsed = s.link.parsed;
          codes = omega arith;
        };
        buffer = s.buffer;
      },
      none_held,
    )

hearing-Fits : Fits hearing (polled_at 5000 true)
hearing-Fits = record {
  nibble = omega arith;
  scratch = record { raw = omega arith; body = omega arith };
}

-- What the receiver holds after the poll.
abbrev next_codes : List ℕ
next_codes = Fifo.Refine.contents (Rx.update hearing.phy.rx 5000 true).byte_fifo

next_codes_run : next_codes ≡ mbus_end_msg_code ∷ []
unfolding Rx.update Rx.edges Rx.timeouts
next_codes_run = refl

sniffer_prints_example :
    Returns
      (λ (m', said).
        let (raw, msgs) = gathered empty_msg hearing.link.nibbles next_codes in
        IsListening m'
        × (said ≡ texts (replicate 256 0) msgs)
        × (m'.link.nibbles ≡ raw)
        × (codes_held m' ≡ drop 1 next_codes)
        × (m'.mbus_drive_lo_pin ≡ false))
      (Sniffer.round (polled_at 5000 true) hearing)
sniffer_prints_example =
    Sniffer.Listening.sniffer_prints hearing (polled_at 5000 true) hearing-IsListening hearing-Fits

-- The bridge after its set-up.
abbrev bridge : Bridge
bridge = record {
  phy = first.phy;
  blink_milli_sec_elapsed = 0;
  tx_nib_queue = replicate 32 0;
  tx_nib_queue_last_idx = 0;
  transmitting = false;
  drive_mbus_pin_lo = false;
  led_pin = false;
  mbus_drive_lo_pin = false;
}

bridge_run : Bridge.set_up (replicate 64 0) (replicate 64 0) (replicate 32 0) ≡ some bridge
unfolding Bridge.set_up mbus_phy_init Rx.init Tx.init mbus_phy_rx_enable Fifo.nomalloc_init
bridge_run = refl

typed-digits : All IsDigit (b'9' ∷ b'8' ∷ b'2' ∷ [])
unfolding ascii2txnibble
typed-digits = omega arith

bridge_free : mbus_phy_rx_is_busy bridge.phy ≡ false
unfolding mbus_phy_rx_is_busy rx_busy_in
bridge_free = refl

line_sent_example :
    Returns
      (λ m'.
        (Fifo.Refine.contents m'.phy.tx.byte_fifo
          ≡ [] ++ (nibbles (b'9' ∷ b'8' ∷ b'2' ∷ []) ++ mbus_end_msg_code ∷ []))
        × (m'.phy.tx.state ≡ TxState.enable)
        × (m'.transmitting ≡ true)
        × (m'.tx_nib_queue_last_idx ≡ 0))
      (type_line ((b'9' ∷ b'8' ∷ b'2' ∷ []) ++ 13 ∷ []) bridge)
line_sent_example =
    Bridge.Line.line_sent (b'9' ∷ b'8' ∷ b'2' ∷ []) bridge typed-digits (omega arith) refl refl
      bridge_free refl (omega arith) (omega arith)

-- A ping of the head unit.
abbrev ping_msg : RxMsg
ping_msg = record empty_msg {
  parsed = record empty_msg.parsed { direction_h2c = true; msg_type = msgtype_ping };
}

ping_replied : Toggle.reply ping_msg ≡ some (packed 0x982 3)
unfolding Toggle.reply
ping_replied = refl

reply_misread_example :
    Returns
      (GotError (quiet_link true))
      (receive empty_msg (quiet_link true) (framed (unpacked (packed 0x982 3).nibbles)))
reply_misread_example =
    Toggle.Misread.reply_misread empty_msg (quiet_link true) ping_msg (packed 0x982 3)
      receiver-CanReceive ping_replied
