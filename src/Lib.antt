-- ===== src/Lib.antt =====
-- ESP32 remote-identification signal generator: simulated aircraft whose positions are sent as
-- remote-identification messages over BLE and Wi-Fi. Components live in components/, the
-- application that starts them in main/app_main.cpp.
--
-- A configuration (rid_config) names groups of aircraft, each with a protocol, a transport and
-- a trajectory. It is validated and expanded into aircraft, whose identities rid_identity
-- derives from a hash. The runtime encodes the messages that are due into payloads and hands
-- them to a sink, in the application RadioSink: it puts them into the queue of the BLE
-- transport or of the radio coordinator (rid_radio), which shares one Wi-Fi radio between two
-- bands. The queues of rid_scheduler, one for each transport, stand alone: no code but its
-- tests calls them. So the overflow policy of the design document (section 9.4: drop the most
-- stale payload, keep the newer), which they implement, is not that of the application, whose
-- radios refuse a payload when their queue is full.
--
-- Files and the code they are about:
--   Prelude: Boolean tests, lists over native numbers, signed integers, arrays as functions.
--   Model: components/rid_model. Enumerations have a constructor for the values that a cast
--   can give besides the named ones. Model/Floats has `double` and `float` as IEEE 754 bit
--   patterns.
--   Payload: ScheduledPayload and TransportStats of
--   components/rid_scheduler/include/rid/scheduler.hpp, and the order of payloads
--   (Payload/Order).
--   Slots: the loops that find the earliest entry of an array of payloads and that remove an
--   entry, with Slots/Earliest, Slots/Shift and Slots/Erase about each of them.
--   Scheduler: components/rid_scheduler/scheduler.cpp, a function for each method of
--   Scheduler. Its queues are functions of the transport index; a method that changes the
--   object returns the new one.
--   Radio: esp_err_t and the interface WifiBackend, a record of functions over the state of
--   whatever implements it. Radio/Pending: what a queue in an array with a count holds.
--   Coordinator: components/rid_radio/radio_coordinator.cpp. `poll` is cut into the parts
--   plan, select_band, after_switch and send_next, which stand in the order of the source.
--   Trajectory: the configuration of a trajectory and the function valid of
--   components/rid_trajectory/trajectory.cpp; Trajectory/Clock has its method extend_elapsed.
--   Identity: components/rid_identity/identity.cpp over the hash as a parameter.
--   Config: components/rid_config/config.cpp. A std::set of names is the list of names put
--   into it. Config/Valid describes the valid configurations, Config/Expand the expansion.
--   Nvs: components/rid_config/nvs_store.cpp. Nvs/Bytes has Writer and Reader: a writer is the
--   bytes that it appends, a reader consumes a list of bytes. Nvs/Codec has encode_config and
--   decode_config, cut into a writer and a reader for each record; Nvs/Codec/Typed says what
--   the source's types guarantee. Nvs/Store has the two slots, load and save, over a record of
--   the driver's calls, with the driver's documented behaviour stated in Nvs/Store/Flash.
--   Shell: components/rid_shell/shell.cpp. Shell has ShellLineBuffer, Shell/Words the helpers
--   that read a command, Shell/Commands and Shell/Handle the parts of Shell::handle.
--   Wifi: the frames of components/rid_radio/wifi_transport.cpp. The loop over the information
--   elements takes the number of bytes as fuel, of which each round consumes at least two.
--   Ble: BleTransport of components/rid_radio/ble_transport.cpp over the GAP backend as a
--   record of functions; Ble/ServiceData has build_opendroneid_service_data, Ble/Nimble has
--   NimbleBleGapBackend over the calls of NimBLE. The loop over the ring of completions takes
--   its size as fuel, which is more than the ring can hold.
--   Runtime: components/rid_runtime/runtime.cpp over records for the trajectory engine, the
--   encoders and the sink. Runtime/Schedule has apply and advance_due, Runtime/Ticks has tick,
--   cut into a function for a pack, for a kind and for an aircraft. advance_due has a round
--   for each millisecond that a due time is behind and one more.
--   Odid: components/rid_odid/odid_encoder.cpp over the vendored library as a record of
--   functions; Odid/Encoders is the encoder as the runtime calls it.
--   Gb: components/rid_gb/gb_encoder.cpp and components/rid_gb/private_include/gb_wire.hpp,
--   over a record of the floating-point operations.
--   App: RadioSink of main/app_main.cpp, which hands a payload to the BLE transport or to the
--   coordinator; App/Rounds has the loop of runtime_task, a list of rounds between which the
--   host task reports completions; App/Polls and App/Operation are about one round.
-- Machine integers are natural numbers with the wrap-around written out: counters saturate at
-- 2 ^ 64 - 1, times are 64-bit milliseconds and their sums and differences are taken modulo 2
-- ^ 64. Loops over arrays recurse on the number of rounds left, which the caller gives as the
-- source's bound, so no fuel can run out.
--
-- Parameters of the model: the drivers of ESP-IDF and NimBLE, mbedTLS, the vendored
-- OpenDroneID library, std::strtod, and the arithmetic and rounding of floating-point numbers.
-- What the code relies on of them is stated as named laws, where a theorem needs it.
--
-- Not modelled: the sampling of trajectories, which is floating-point trigonometry;
-- EspWifiBackend, which only calls the Wi-Fi driver; the start-up, the mutex, the delays and
-- the console input of main/app_main.cpp. The host task's completions are steps between the
-- calls of the runtime's task, and the wait for callbacks that are still running is left out.
pub mod App
pub mod Prelude
pub mod Model
pub mod Payload
pub mod Slots
pub mod Scheduler
pub mod Radio
pub mod Coordinator
pub mod Trajectory
pub mod Identity
pub mod Config
pub mod Nvs
pub mod Shell
pub mod Wifi
pub mod Ble
pub mod Runtime
pub mod Odid
pub mod Gb
