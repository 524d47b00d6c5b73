-- ===== src/Lib.antt =====
-- A model of the firmware's own logic: an NTP server on a microcontroller that is disciplined by the
-- pulse per second of a GPS receiver. Paths are from the repository's root.
--
-- The parts. A GPS sentence gives the server the UTC second (update_gps_utc_seconds), a clock chip seeds
-- it before that (seed_utc_seconds), the pulse monitor gives it the time of each edge
-- (observe_pps_pulse), and the main loop lets it answer the datagrams that have arrived (poll). The
-- server keeps an anchor, a pair of a UTC second and a monotonic time, and reads its clock from it.
--
--   Common       the names all files share, lists, options, signed integers, machine words, bit fields
--   Protection   src/ntp/protection.rs and src/ntp/cidr_parse.rs: Limiter is RateLimiter::check, Acl the
--                allowlist, Cidr the parser of its setting
--   Ntp          src/ntp/mod.rs. Server is NtpServer without its socket, with the setters and the reading
--                of the clock; Pulse is observe_pps_pulse; Params is discipline_params with the holdover;
--                Packet and Mode6 build the replies; Timestamp packs timestamps; Poll is poll, one pass
--                of which is handle; Life puts the calls of the server into any order
--   Pins         src/pins.rs: the registry and the pool; Startup is the monad in which a device starts,
--                of claims of pins and calls of the platform that end with the first failure
--   Pps          src/pps.rs: the sequence lock between the interrupt and the main loop; Device is
--                PpsDevice
--   I2c          src/i2c_bus.rs: the start of the bus and the transfers for a device
--   Battery      src/battery.rs: the reads of the two fuel gauges
--   Rtc          src/rtc.rs: the registers of the clock chip, in Chip its calls over the bus, in Local the
--                texts of a second
--   Display      src/display.rs: the order of the pages; Device is DisplayDevice, Viewport OffsetDisplay,
--                Labels the texts of the values, and Pages the lines of draw_page
--   Ui           src/ui_task.rs. Button is button_task_main, one pass of its loop a function; Panel is the
--                frame of panel_task_main beside the button task, every access to the shared control a
--                step; Feed is UiFeed with sample_sensors
--   SdLog        src/sdlog.rs: the queue and flush_to_card, Writer the thread of start_writer and the
--                routes, Form the texts of its pages, Http serve_file, serve_listing and handle_delete
--   Gps          src/gps.rs: the frame and the fields, Sentences parse_rmc and parse_gga, Uart GpsUart
--   Storage      src/storage.rs: SdDeadline, the watchdog, the reread of the space, the pins of init; Jobs
--                is the queue between call and worker_main, a step for each access, and Mount try_mount
--   Timezone     src/timezone.rs: TimezoneWorker and extract_json_string_field; Fetch is
--                fetch_timezone_for_coords, Cache the names in NVS and on the card
--   Wifi         src/wifi.rs: the credentials and the calls of connect_wifi_sta
--   Logging      src/logging.rs: the levels from the settings of the build
--   Board        src/board.rs: boot, which starts the devices of the other parts over one pool of pins
--   App          src/app.rs: Start is run from the start of the board to its passes, with the turns of
--                the lookup thread and of the panel task between them, Zones has the consumer's methods
--                and the lookups, Pass one pass of run
--   Tests        runs on concrete inputs
--
-- How the code is read. A method that changes its object is a function to the new state. What a method
-- reads from a clock, what the socket delivers, and whether a send succeeds, are arguments: Readings has
-- the readings of one pass of poll in their order. Integers are native numbers, with i64 over a signed
-- type; wrap-around and saturation are written out, and an overflow wraps as in a release build. The
-- counters served, rate_limited_total and acl_blocked_total, of 64 bits, are numbers without a bound. The
-- types f64 and f32 are a parameter, Floats, with the operations that the code calls and without any
-- law. Texts are lists of character codes. Build settings (the fudge second, the
-- allowlist) are arguments. A datagram is the bytes that recv_from has left in the buffer of 512, so at
-- most as many. The loop of poll runs over a list of what the socket gives and ends with it or with the
-- first would-block or error; the padding of a control answer needs three rounds at most, which is the
-- number it is given.
--
-- The pulse monitor's three stores are steps of their own, and the reader's loads may fall between any
-- two of them, in the order in which the program has them; the memory ordering of the processor is taken
-- to keep that order. The counter is the 32-bit one, and the statement needs fewer than 2^31 pulses.
--
-- The driver of the I2C bus is a parameter, I2cDriver: a write or a read may fail at any time. The
-- chip's conversions from and to Unix seconds are arguments. The receiver's f32 and the dates and
-- zones of chrono are a parameter, Platform, without any law. The two tasks of the user interface run
-- beside each other: the order of their accesses is free, and the memory ordering is taken to be the
-- program's. Their times, and those of the main loop and of the card's worker, are microseconds since
-- boot, which are never negative. The loop that sends a file is given one round more than the file's
-- length in bytes, and that is enough; the frame of the panel task takes six steps. The texts of a
-- file's name and of a form are bytes in UTF-8. A panic is a value.
--
-- NVS (Nvs), the HTTP client, the decoder of UTF-8 and the formats of numbers and of dates (Formats) are
-- parameters. NVS is without any law, but where a statement names one: that it gives back what it has
-- taken. What a driver answers at the start is a truth value for each call.
--
-- Not modelled: the boot test pattern and the drawing of glyphs, mDNS, the spawning of threads, the
-- warnings of the main loop, and all calls of the platform (sockets, drivers, files, tasks, logging),
-- which give answers that are arguments.
pub mod Common
pub mod Protection
pub mod Ntp
pub mod Pins
pub mod Pps
pub mod I2c
pub mod Battery
pub mod Rtc
pub mod Display
pub mod Ui
pub mod SdLog
pub mod Gps
pub mod Storage
pub mod Timezone
pub mod Wifi
pub mod Logging
pub mod Board
pub mod App
pub mod Tests
