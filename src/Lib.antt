-- ===== src/Lib.antt =====
-- A model of the parts of AusweisApp2 that decide what happens to an identity card: the results that
-- the parts of the program hand each other, the APDUs and how they are secured, the messages of Bluetooth
-- readers, the answers of readers that run PACE themselves, the context of a workflow, the states that
-- establish a PACE channel, and the controllers' machines.
-- A workflow (src/core) is a state machine over one context. Its states read and write the context, call
-- the card (src/card) and fire signals; a controller's transitions say which state a signal leads to.
-- What a card command returns is a CardReturnCode, which becomes a GlobalStatus of the context, which
-- becomes an ECardApiResult for the server (src/global).
--
-- Which file models what:
--   Global/Status, Minor, Message, Elements, Conversion, Result: src/global/GlobalStatus.h and .cpp,
--     ECardApiResult.h and .cpp. The two conversion maps, which the code fills on first use, are an
--     argument that holds them before the call; the translation and the locale are arguments too.
--   Global/ReturnCode: src/global/CardReturnCode.h and .cpp.
--   Apdu/Command, Apdu/StatusCode, Apdu/Response: src/card/base/CommandApdu.cpp, ResponseApdu.cpp. A
--     `char` is its bit pattern, a number below 256.
--   Card/PasswordId, Card/PaceOutput: src/card/base/SmartCardDefinitions.h,
--     EstablishPaceChannelOutput.cpp. `none` is a read outside of the array.
--   Card/AccessRight, Card/Chat: src/card/base/asn1/AccessRoleAndRight.h and .cpp, Chat.cpp. A template is
--     its bytes; a write outside of them is `none`. Card/Chat/Rights has the abstract view of a template,
--     a role and a set of rights, and Card/Chat/Number the number of forty bits between the two.
--   Card/Chains: src/card/base/asn1/ChainBuilder.h, CVCertificate.cpp, CVCertificateChain.cpp and
--     CVCertificateChainBuilder.cpp. Pointers to certificates are compared by their addresses.
--   Card/Commands: the builders of src/card/base/Commands.cpp, EstablishPaceChannel.cpp, PinModify.cpp.
--   Card/Connection: src/card/base/CardConnectionWorker.cpp over a card and its driver as a machine, and
--     over a channel as the two functions that secure a command and open a response.
--   Card/SecureMessaging: src/card/base/pace/SecureMessaging.cpp without `decrypt`. The cipher, the MAC
--     and the ASN.1 encodings are a record of functions. Card/SecureMessaging/Receiver is the card that
--     takes a secured command apart, which is not part of the program.
--   Card/Bluetooth: the parser and the writer of messages in src/card/bluetooth/messages. A message keeps
--     its parameters in the order of the QMap.
--   Workflow/Context: src/core/context/WorkflowContext.cpp, and the part of
--     src/core/states/AbstractState.cpp that works on the context. Signals are listed in the context.
--   Workflow/Pace: the states of src/core/states/CompositeStatePace.cpp. `run_...` is the `run` of a
--     state, `on_...` one of its slots; a result is a signal that is fired or a command that is called.
--     Workflow/Pace/Machine has the transitions, and the steps of the machine as a relation in which the
--     card's answers, the clock and the user's input are free.
--   Workflow/Auth, SelfAuth, ChangePin, RemoteService: the transitions of the controllers in
--     src/core/controller, and the states of a change of the PIN in src/core/states.
--   Remote/Json, Remote/Messages: src/remote_device/messages, as objects of JSON. Of the responses, the
--     common part with the result.
--   Remote/Dispatcher: src/remote_device/RemoteDispatcher.cpp, RemoteDispatcherServer.cpp,
--     RemoteDispatcherClient.cpp and messages/IfdVersion.cpp (of a build without debugging).
--   Remote/Server: src/remote_device/ServerMessageHandler.cpp. A handler returns the connections and the
--     list of messages, commands and signals; the error that the code sends by a queued call is in it too.
--   Remote/DeviceList: src/remote_device/RemoteDeviceList.cpp, with the comparison of
--     src/remote_device/RemoteDeviceDescriptor.cpp.
--   Remote/PinChange: src/remote_device/messages/IfdModifyPinResponse.cpp, `setEidPin` of
--     src/remote_device/plugin/RemoteCard.cpp, and src/card/base/PinModifyOutput.cpp.
--   Workflow/Graph: walks of such machines, and the rule of invariants for them.
--   Prelude: numbers, lists, bytes and integers, and the lemmas on them that the components share.
--   Tests: the theorems at concrete inputs.
--
-- The loop of the Bluetooth parser runs on fuel, the number of bytes at hand, and each run takes four of
-- them at least. The recursion that builds chains runs on the number of elements of the pool and one:
-- each call adds an element. The loop that reads a file runs on any fuel; how much a card needs is a
-- theorem. All other functions are structurally recursive or not recursive at all. Numbers are
-- unbounded, and where the code cuts a number to the width of its type, the model has a remainder or a
-- bound as a hypothesis.
--
-- Not modelled: `Q_ASSERT`, which a release build leaves out; log output; translated texts; the ASN.1
-- templates and the cryptography of OpenSSL; the selection of a reader inside the PACE part, which is
-- free in the steps; the texts of JSON, the WebSocket and TLS layers under a remote
-- reader; the drivers of readers; the user interfaces; the queue of Qt's signals (a state fires one signal each
-- time it ends). The restart of a timer that was never started, which Qt does not define, is taken for a
-- start. The steps of the PACE part let a card be removed in each state, though these states do not
-- listen for it.
pub mod Prelude
pub mod Global
pub mod Apdu
pub mod Card
pub mod Remote
pub mod Workflow
pub mod Tests
