-- ===== src/Lib.antt =====
-- Stabilizer: firmware of a board with two channels of analog feedback, and of Pounder, its RF
-- frontend with an AD9959 direct digital synthesizer (DDS).
--
-- The program's parts and how they interact. A driver (ad9959/src/lib.rs) sets the DDS up through
-- an interface, which on Pounder is the QSPI peripheral (src/hardware/pounder/mod.rs,
-- QspiInterface). Once it is set up the driver is dissolved, QspiInterface streams, and
-- DdsOutput (src/hardware/pounder/dds_output.rs) writes profiles, which ProfileSerializer
-- (ad9959/src/lib.rs) builds, to the FIFO of the peripheral and triggers the timer of
-- src/hardware/pounder/hrtimer.rs. PounderDevices (src/hardware/pounder/mod.rs) owns the GPIO
-- extender, and is the device of the attenuators (src/hardware/pounder/attenuators.rs). The
-- processing of samples adds batches to frames with FrameGenerator, and DataStream sends the frames
-- over UDP (src/net/data_stream.rs); the two share a pool of buffers and a queue. The menu of
-- serial-settings/src/lib.rs reads and changes the settings, which SerialSettingsPlatform
-- (src/settings.rs) keeps in flash. The applications (src/bin) turn a batch of samples of the ADCs
-- into codes of the DACs in an interrupt, add both to the stream, and apply changed settings in a
-- task; NetworkUsers (src/net/mod.rs) runs the settings client, the stream, the link and the
-- telemetry (src/net/telemetry.rs) in rounds.
--
-- Files. The state of a component is a record under its name in the code, a method a function
-- under its name.
--   Ad9959: the types of the crate; Ad9959/Serializer: ProfileSerializer. Serializer/Device is what
--     a DDS makes of bytes, Serializer/{Layout,Padding,Words,Effect,Selection} are proofs.
--   Ad9959/Driver, Driver/Channels: the driver. Driver/Chip is the contract of a board on which the
--     chip answers; Driver/{Access,Modified,RoundTrip,Clock,Multiplier} are proofs.
--   Pounder/Qspi, Pounder/DdsOutput: QspiInterface, DdsOutput and ProfileBuilder.
--   Pounder/Gpio, Pounder/Devices, Devices/Startup: IoExpander and PounderDevices. Gpio/Pins is the
--     contract of the chips of the extender.
--   Pounder/Attenuators: AttenuatorInterface, of which PounderDevices is an instance.
--     Attenuators/ShiftChain is the contract of the chain of shift registers.
--   Pounder/HrTimer: the registers of the single shot.
--   Pounder/RfPower: the power of an input (src/hardware/pounder/rf_power.rs).
--   Net/DataStream, DataStream/Transmit: StreamFrame and FrameGenerator, then StreamTarget and
--     DataStream. DataStream/Contract has the laws of pool and queue, DataStream/System the steps
--     of a device that streams, DataStream/Pieces the view of its history as runs of batches;
--     DataStream/{Frames,Ownership,Room,Tracking}, Transmit/{Delivery,Wire} and
--     System/{Rounds,Carries} are proofs.
--   Net/Telemetry: TelemetryBuffer and TelemetryClient; Telemetry/Once is a proof.
--   Net/Users: NetworkUsers; Users/{Rounds,Directing} are proofs.
--   Net/NetworkProcessor: NetworkProcessor (src/net/network_processor.rs); Resets is a proof.
--   Hardware/Eeprom, Hardware/Afe: read_eui48 (src/hardware/eeprom.rs) and the amplifier of
--     src/hardware/afe.rs; Eeprom/Agreement is a proof.
--   Hardware/SignalGenerator: the generator of src/hardware/signal_generator.rs; Waves is a proof.
--     SignalGenerator/Conversion: BasicConfig; Conversion/Bounds is a proof.
--   Hardware/Codes: AdcCode and DacCode (src/hardware/adc.rs, dac.rs); Codes/Order is a proof.
--   Hardware/Timers, Hardware/Stampers: the timers and channels of src/hardware/timers.rs,
--     InputStamper and the Timestamper of Pounder; Timers/Captures is a proof.
--   Hardware/SharedAdc: AdcChannel and CpuTempSensor (src/hardware/shared_adc.rs,
--     cpu_temp_sensor.rs).
--   Hardware/Sampling: the constructors of the ADC inputs and DAC outputs (src/hardware/adc.rs,
--     dac.rs) and the sampling timers of src/hardware/setup.rs; Sampling/Ordering is a proof.
--   Apps/DualIir, DualIir/Tasks: the processing and the tasks of src/bin/dual-iir.rs;
--     DualIir/Runs: a run of its batches. DualIir/Reference: the filters and the generators one
--     after the other. DualIir/{Batches,Returns,Follows,Stream} and Tasks/Applies are proofs.
--     Apps/Lockin, Lockin/Tasks: those of src/bin/lockin.rs; Lockin/Stream is a proof.
--     Apps/Streaming: the batch that both add to the stream, with Streaming/Steps.
--     Apps/Changes: the tasks of both that change and apply settings; Changes/Applied is a proof.
--   Settings, Settings/{Get,Clear,Store,Runner}: the handlers of the menu and the poll loop.
--     Settings/Menu: the table of the menu and the calls of its handlers; Menu/{Notices,Reads} are
--     proofs. Settings/BestEffort: BestEffortInterface. Settings/Persistent:
--     SerialSettingsPlatform. Persistent/Commands: its command, with the flag of
--     src/hardware/platform.rs. Settings/Keeps, Store/{Reads,Persists}, Get/Reads, Clear/Clears,
--     Runner/{Draining,Flags,Notices} and Persistent/{Loading,Restores} are proofs.
--   Prelude: what the others share. The modules named Tests have concrete devices and runs.
--
-- How the code is read. A panic (an unwrap, an index out of range, an assertion) is `none`; a
-- Result is Result, with the state that an error leaves. Machine integers are natural numbers,
-- signed ones by their bit pattern, with their wrap-around written out: the sequence number is
-- taken modulo 2^32 and the count of batches modulo 2^8, as a build without overflow checks does.
-- Log lines are left out.
--
-- Bounds and fuel. A stream of bytes is parsed with as much fuel as it has bytes, and each write
-- takes a byte at least. The loop that flushes the queue of frames has fuel, of which one more than
-- the frames in the queue is enough. The reads of the MAC address are
-- the 40 of the code. The loop of Runner.poll has fuel for its rounds, of which one more than
-- the reads that have input is enough.
--
-- Parameters, as records of operations, with their documented laws as a second record: the
-- interface, pins and delay of the DDS; the bit fields of the crate bit_field; f32; the QSPI
-- peripheral; the chips of the GPIO extender, SPI, ADC channels and temperature sensor; the pool
-- and the queue of heapless; the UDP stack of smoltcp-nal; the PHY; the I2C bus and the pins of
-- the amplifier; the settings tree of miniconf with the checksum of yafnv; the map of
-- sequential_storage; the crate menu; the MQTT clients of minimq and miniconf; the filters, the
-- PLL and the complex numbers of idsp; the timers of the HAL with their status and capture
-- registers; the DACs of the CPU and of the GPIO; the default configuration of a DMA transfer;
-- the conversions of an ADC. The users of the network share one stack of sockets in the code;
-- here each has a state of its own.
--
-- Not modelled: the rest of the setup of the hardware, DMA and interrupts, whose handlers are
-- functions here on the buffers that they are given, the constructors that wire the network, the
-- driver of the USB device, the jump to the bootloader, and the text of messages.
pub mod Prelude
pub mod Ad9959
pub mod Pounder
pub mod Net
pub mod Settings
pub mod Hardware
pub mod Apps
