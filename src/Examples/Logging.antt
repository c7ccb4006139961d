-- ===== src/Examples/Logging.antt =====
-- What a dialling peer with two methods, one of them registered twice, logs of them.
use zmq_ipc.Prelude.{ℕ, ◌≡◌, ◌↔◌, refl, none, true, false, List, [], ◌∷◌, bytes_eq}
use zmq_ipc.Prelude.Dict.{find}
use zmq_ipc.FlatBuffers.Sample.{sample}
use zmq_ipc.Rpc.{verify}
use zmq_ipc.Dial.{Dial, construct}
use zmq_ipc.Dial.Logging.{
  Registration, register_all, is_registered, printed, dump_registered_methods, dump-register_all,
}
use zmq_ipc.Examples.Setup.{echo_name, mute_name}
use zmq_ipc.Examples.Receiving.{blank}

abbrev with_name : List ℕ → Registration sample
with_name name = record { verify = verify sample; name = name; handler = blank }

abbrev registrations : List (Registration sample)
registrations = with_name echo_name ∷ with_name mute_name ∷ with_name echo_name ∷ []

abbrev debugged : Dial ℕ
unfolding construct
debugged = construct [] 2 true

dump-register_all_example :
    (printed echo_name (dump_registered_methods (register_all sample registrations debugged)) ≡ 1)
    × ((find echo_name (register_all sample registrations debugged).peer.method_map ≡ none)
        ↔ (is_registered sample echo_name registrations ≡ false))
unfolding construct
dump-register_all_example = dump-register_all sample debugged echo_name refl registrations
