-- ===== src/Client/Tests.antt =====
-- Clients whose server answers, and one whose server does not.
use cevent_sample.Prelude.{ℤ, pos}
use cevent_sample.Client.{Host}

-- `connect` answers 0, or -1
abbrev host : ℤ → Host
host answer = record { socket = pos 4; connect = λ fd. answer; send = λ fd xs n. pos n }
