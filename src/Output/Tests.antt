-- ===== src/Output/Tests.antt =====
-- Writing and flushing on the sample server.
use jabber.Base.{arith, refl, ◌++◌, codes}
use jabber.World.Keeps.{Ends}
use jabber.Sample.{sample_env, client, one_client}
use jabber.Server.{new_session}
use jabber.Output.{session_write, session_flush}
use jabber.Output.Flush.{session_flush-HasSent}
use jabber.Output.Drain.{Drained, flush_times, flush_times-Drained}
use jabber.Output.Stream.{HasSent, stream_of, session_write-HasSent}

session_write_example :
    Ends
      (HasSent 1 client (stream_of one_client client ++ codes " world"))
      (session_write 1 (codes " world") one_client)
unfolding new_session
session_write_example =
    session_write-HasSent 1 client (codes " world") one_client refl (omega arith)

session_flush_example :
    Ends (HasSent 1 client (stream_of one_client client)) (session_flush sample_env 1 one_client)
unfolding new_session
session_flush_example = session_flush-HasSent sample_env 1 client one_client refl (omega arith)

flush_times_example :
    Ends (Drained 1 7 (stream_of one_client client)) (flush_times sample_env 1 5 one_client)
unfolding new_session
flush_times_example =
    flush_times-Drained sample_env 1 5 client one_client refl (omega arith) (λ n. (2, refl))
      (omega arith)
