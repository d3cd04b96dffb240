-- ===== src/Lib.antt =====
-- UsbIo: an Arduino board as a USB pin server, and the host driver that talks to it.
--
-- The device answers vendor control requests. A request arrives in an interrupt
-- (handle_setup of src/UsbIo.cpp), is validated against the pin table and is then answered from
-- a shadow of the pins, refused with a STALL, or queued; the sketch's loop (poll of the same
-- file) runs the queue against the hardware, samples the pins into the shadow, scans the
-- watched pins for edges and sends the running stream's records. The host decodes the replies with
-- extras/driver/include/arduino_driver/Protocol.h.
--
-- Prelude: tests on numbers, lists, fixed-width words, counted loops and bits.
-- Protocol: src/usbio_protocol.h (Status, Mode, Edge, Flag, StreamFlag, Limit, Layout) and its C++
-- view Protocol.h (Request, Bytes, Caps, Clock, Decode, Sizes, Errors). A reply is the list of its
-- bytes; a decoder returns a Result whose errors are the exception types of Errors.h.
-- Firmware: src/UsbIo.h and src/UsbIo.cpp. The members of UsbIoClass are the record Device of
-- Firmware.State, its three rings are Firmware.Ring. A function of the class has its name here:
-- handle_setup and begin in Firmware.Setup, handle_out in Firmware.Out with the handlers in
-- Firmware.Select (streaming) and Firmware.Watch (events), handle_in in Firmware.Reply, enqueue and
-- request_reset in Firmware.Queue, mode_allowed in Firmware.Modes, poll in Firmware.Main with its
-- phases in Firmware.Poll, Firmware.Scan and Firmware.Sample. A handler takes the device and
-- returns whether the request is accepted with the device after it; a phase of poll() takes and returns the
-- device and the hardware's state. A switch over requests is a function by clauses, and a part of a
-- handler's body that has its own loop or guards is a function of its own.
--
-- Firmware.Invariant holds the invariant of the device between those calls, its preservation by each
-- request and each phase, and in Reach the relation of the steps that a board can make: requests,
-- disconnects and changes of the hardware between the phases of poll(). Firmware.Watch.Table and
-- Firmware.Select.Selection are the abstract views of the watch table and the selection: how many
-- slots watch a pin, and the list of the selected pins.
--
-- The Arduino core and the transport are parameters: Board holds the constants and pin predicates
-- that src/UsbIoBoard.h selects, Core the calls (pinMode, digitalRead, millis, the stream endpoint)
-- over an abstract state of the hardware.
--
-- Host: the driver of extras/driver/src. Host.Stream is the worker of Stream.cpp that cuts the bytes of the bulk
-- endpoint into records and queues the samples; Host.Stream.Wire runs it on the firmware's records.
-- Host.Transfers is the control transfers of Device.cpp over a Transport, a parameter; Host.Transfers.Refusal
-- and Host.Transfers.Cable run them over a cable to the firmware.
-- Host.Exec is operations that change an object and may throw, and Host.Driver the Device class over it: its
-- members are the record Driver, the constructor is Host.Driver.Open, the pin operations Host.Driver.Pins, the
-- pin events Host.Driver.Events and start_stream with its rollback Host.Driver.Streams. Host.Driver.Mirror says
-- what the host knows of the firmware that it is connected to.
-- Host.Watcher is EventWatcher.cpp: its constructor, the passes of its thread and stop().
-- Host.Enumerator is Enumerator.cpp, over what libusb says of each device on the bus.
-- CApi: extras/c_api/src. CApi.Errors is adrv_guard and the codes for exceptions, CApi.Device and
-- CApi.Stream the entry points over the driver.
--
-- Integers are natural numbers with the wrap-around of their type written out (Prelude.Words). A ring's
-- indices are bytes that run freely, as in the code, and are reduced when a slot is addressed.
-- A loop over a ring runs once per pending entry, which the difference of its indices counts. The
-- do-while of poll() runs on fuel: one round, and one more for each round before whose test requests are
-- handled, suffice; poll, which is modelled with none, gives it two. The parsing loop of the host runs on as much fuel as there
-- are bytes, since a round that goes on uses one at least. Requests are handled between the
-- phases of poll(), and in Firmware.Poll.settle_under also between the drain of a round and its test; never
-- inside another step.
--
-- poll_events runs on a bound of its transfers, five of which suffice for a ring of 32 events;
-- wait_event on the number of times that the clock is read before the deadline.
--
-- Not modelled: the transports, libusb, the tool, the bindings and the examples,
-- which are glue; the operations in volts and fractions, which compute with doubles; threads, locks and the
-- waits of the Stream and EventWatcher classes; the text of messages.
pub mod Prelude
pub mod Protocol
pub mod Firmware
pub mod Host
pub mod CApi
mod Tests
