-- ===== src/Tests/Opening.antt =====
-- The opening of the PRO and the start of the client.
use dmx_enttec_node.Enttec.UsbPro.Driver.{Driver, IsStream}
use dmx_enttec_node.Prelude.{
  ℕ, zero, suc, ◌≤◌, ◌≡◌, refl, ap, List, [], ◌∷◌, ◌++◌, length, take, drop, length-take,
  length-drop, arith, replicate, none, false, ok, memcpy,
}
use dmx_enttec_node.Core.EventLoop.{EventLoop}
use dmx_enttec_node.Enttec.UsbPro.Framing.{packet}
use dmx_enttec_node.Enttec.UsbPro.Send.{send_data}
use dmx_enttec_node.Enttec.UsbPro.Receive.{got, receive_data, receive_body, seek_label, seek_start}
use dmx_enttec_node.Enttec.UsbPro.Open.{Opened, Stack, open_device, list_devices}
use dmx_enttec_node.Enttec.Client.Start.{Started, Timers, start_client, add_timers}
use dmx_enttec_node.Tests.Data.{Wires, driver, client}

abbrev pub stack : Stack
stack = record { buffer = replicate 600 0; temp = 0 ∷ 0 ∷ 0 ∷ 0 ∷ [] }

abbrev pub no_params : List ℕ
no_params = 0 ∷ 0 ∷ 0 ∷ 0 ∷ 0 ∷ []

-- A device that answers both requests
abbrev pub answering : Wires
answering = record {
  out = [];
  in_ = packet 3 (1 ∷ 2 ∷ 3 ∷ 4 ∷ 5 ∷ []) ++ packet 10 (6 ∷ 7 ∷ 8 ∷ 9 ∷ []);
}

abbrev answered : Wires
answered = record {
  out = packet 3 (0 ∷ 0 ∷ []) ++ (packet 10 (0 ∷ 0 ∷ []) ++ packet 4 (replicate 513 0x1E));
  in_ = [];
}

abbrev device : Opened
device = record { result = 1; handle = 1; params = 1 ∷ 2 ∷ 3 ∷ 4 ∷ 5 ∷ [] }

opens : open_device driver 5 stack no_params 0 0 answering ≡ got device answered
unfolding open_device send_data receive_data seek_label seek_start receive_body memcpy
opens = refl

take-short : (n : ℕ) (xs : List ℕ) → length xs ≤ n → take n xs ≡ xs
take-short zero [] le = refl
take-short zero (x ∷ xs) le = absurd (omega arith)
take-short (suc n) [] le = refl
take-short (suc n) (x ∷ xs) le = ap (λ ys. x ∷ ys) (take-short n xs (omega arith))

-- The driver with a receive queue of 64 bytes
abbrev queueing : Driver
queueing = record driver {
  ft_read =
      λ h n d. let queue = take 64 d.in_ in (0, take n queue, record d { in_ = drop n queue });
}

abbrev queue : IsStream queueing
queue = record {
  pending = λ d. take 64 d.in_;
  read_ok = λ h n d. refl;
  read_takes = λ h n d. refl;
  read_leaves = λ h n d.
      take-short 64 (drop n (take 64 d.in_))
        (omega (arith, length-drop n (take 64 d.in_), length-take 64 d.in_));
}

abbrev pub timers : Timers ℕ
timers = record {
  sender_now = 1;
  sender = λ n. ok n;
  sender_address = 1;
  metrics_now = 2;
  metrics = λ n. ok n;
  metrics_address = 2;
}

abbrev loop : EventLoop ℕ
loop = record { callbacks = []; timers = [] }

abbrev started : Started ℕ
started = record {
  client = client none false;
  handle = 1;
  params = 1 ∷ 2 ∷ 3 ∷ 4 ∷ 5 ∷ [];
  loop = add_timers timers loop;
  thrown = none;
}

starts :
    start_client driver 5 stack timers 0 no_params loop (client none false) answering
    ≡ got started answered
unfolding start_client list_devices open_device send_data receive_data seek_label seek_start
    receive_body memcpy
starts = refl
