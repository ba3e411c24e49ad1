-- ===== src/Tests/Drain.antt =====
-- A pass of `Flush` with a Portal that accepts every request.
use it_portal_agent.Prelude.{refl, [], arith}
use it_portal_agent.Prelude.Assoc.{lookup}
use it_portal_agent.Base64
use it_portal_agent.Storage.{get, get_secret, open_secret, unprotect_secret}
use it_portal_agent.Storage.Queue.{IsQueue}
use it_portal_agent.Sync.{judge, route_for_type, flush}
use it_portal_agent.Sync.Drain.{IsOpen, IsReadable, IsDrained, flush-IsDrained}
use it_portal_agent.Sync.Fifo.{IsRouted}
use it_portal_agent.Tests.{env, engine, waiting}
use it_portal_agent.Text.{text}
use it_portal_agent.Text.Space.{trim_space, trim_left, trim_right}
use it_portal_agent.World.{answer, Env, background}

abbrev open_env : Env
open_env = record env {
  exchange = λ n r. answer (record { status_code = 200; status = text "200 OK"; body = answer [] });
}

waiting-IsQueue : IsQueue waiting.queue
waiting-IsQueue = (refl, (omega arith, tt), (refl, tt, tt))

waiting-IsRouted : IsRouted waiting.queue
unfolding route_for_type
waiting-IsRouted = (λ m. cc, (λ m. cc, tt))

open_env-IsOpen : IsOpen open_env engine (text "token")
unfolding judge trim_space trim_left trim_right
open_env-IsOpen = record {
  given = refl;
  random = λ n. (_, refl);
  url = λ type endpoint m. refl;
  accepts = λ type endpoint payload m n now nonce. (_, refl, λ latency. (_, refl));
}

readable : IsReadable open_env engine (text "token") open_env-IsOpen background waiting.config
unfolding get_secret get open_secret unprotect_secret lookup Base64.encode Base64.letter
    Base64.decode Base64.decode_groups Base64.without_newlines Base64.bits Base64.three_bytes
    Base64.two_bytes Base64.one_byte
readable w h = rw h refl

flush-IsDrained_example :
    IsDrained open_env engine
      (text "token")
      open_env-IsOpen
      background
      waiting.config
      readable
      (λ n. refl)
      waiting
      (flush open_env engine background waiting)
flush-IsDrained_example =
    flush-IsDrained open_env engine (text "token") open_env-IsOpen background waiting.config
      readable (λ n. refl) waiting waiting-IsQueue waiting-IsRouted (omega arith) refl
