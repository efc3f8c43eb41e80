-- ===== src/Lib.antt =====
-- ASL is a secure boot mechanism for Android: an init process (system/core/init) whose boot script
-- checks the system partition, and proc files of the kernel (kernel/security/asl) for its status.
-- This library models init, its second role as ueventd, and the status file, and proves what their
-- parts promise.
--
-- How the parts work together: `main` of system/core/init/init.c reads the rc files into a list of
-- services and a list of actions, queues the actions of the boot, and then loops: it executes one
-- command, restarts the services that are due, and waits for requests to the property service, for
-- the exit of processes and for key chords. A property that is set may queue actions, and a
-- property whose name begins with ctl. is a message that starts or stops a service. ueventd reads
-- its rules from the ueventd.rc files with the same tokenizer, and makes the nodes and links of /dev
-- as the kernel tells it of devices.
--
-- The files, and the code that each is about:
--   Base       numbers, lists and C strings, with the functions of the C library on them
--   Token      `next_token` of system/core/init/parser.c
--   Keyword    system/core/init/keywords.h, and `keyword_info` and `lookup_keyword` of
--              system/core/init/init_parser.c
--   Number     `strtoul` and `atoi` as the sources call them, `decode_uid` of
--              system/core/init/util.c
--   Parser     system/core/init/init_parser.c: `parse_service`, `parse_action`, the
--              `service_find_by` functions; its child Options has `parse_line_service`, and Config
--              has `parse_new_section`, `parse_import` and the loop of `parse_config`, Imports has
--              `init_parse_config_file`, and Export has `init_export_rc_file`
--   Expand     `expand_props` of system/core/init/init_parser.c
--   Service    `struct service`; `service_start`, the stops and restarts of
--              system/core/init/init.c, and `wait_for_one_process` of
--              system/core/init/signal_handler.c as `process_exited`. Its child Environ has
--              `add_environment`, Child the part of the new process up to `execve`, and Argv the
--              arguments for that
--   Control    the loops over `service_list`, `handle_control_message` and `restart_processes`
--   Queue      the action queue, `execute_one_command` and, in Triggers, the property triggers
--   Keychord   system/core/init/keychords.c
--   Props      system/core/init/property_service.c: the area with `property_set` and
--              `property_get`; its children Perms and Socket have the requests of clients, Load the
--              property files, and Dictionary what the service promises
--   Util       system/core/init/util.c: `mkdir_recursive`, `make_link`, `remove_link` and
--              `wait_for_file`; its child Proc has `read_file` and the files of /proc, and Mtd the
--              partitions
--   Device     system/core/init/devices.c, ueventd.c and ueventd_parser.c: the messages of the
--              kernel; its children Rules, Platform, Links, Node and Events have the lists of rules
--              and of platform devices and the handlers, Lines the lines of ueventd.rc, and Firmware
--              the loading of firmware
--   Builtin    system/core/init/builtins.c: its children Classes, Exec, Modes, Copy, Mount and
--              Settings have the commands
--   Logo       system/core/init/logo.c
--   Boot       system/core/init/init.c: the kernel command line and the properties of the boot; its
--              child Actions has what `main` queues, and Loop the time-out of its loop
--   Kernel     `read_proc` and `write_proc` of kernel/security/asl/asl.c
-- The other children hold proofs, and each Tests has concrete inputs.
--
-- How the state is modelled. A string is the list of its bytes without the final 0. A pointer into
-- one of the global lists is a place in the list. The flags of a service are a record of its bits.
-- What a function does outside of its state, such as a `kill`, a `notify_service_state` or the
-- functions of the onrestart commands, is a list of effects in their order, or of events for the
-- property service. System calls are arguments: `StartEnv` has what `service_start` asks, and
-- `Incoming` what a client sends. A control message works on the services, and what that
-- notifies sets properties. A function that asks the system again for each service has a `StartEnv` for
-- each place. The log is left out, and so is a failing `malloc`. HAVE_SELINUX,
-- BOOTCHART and CONFIG_ASL_DISABLED are not defined.
--
-- Code outside of the repository is a parameter: bionic's property sizes and search (`Bionic`), the
-- ids of android_filesystem_config.h (`AndroidIds`, `AndroidIdInfo`), the lists of libcutils
-- (`Cutils`), `copy_from_user` (`Uaccess`), and the kernel's files (`FileSystem`, and `Inodes` for
-- modes and owners). `Stored` and `Watch` are what it answers about one file. Each names what it is
-- relied on for, and the tests have an instance.
--
-- Bounds. `parse_config` runs on as much fuel as the file has bytes and one more, since each token
-- that is not the end uses input up, and `init_export_rc_file` likewise; `expand_props` too, since
-- each round reads a dollar sign. `property_set` calls itself for net.change only, so a depth of two
-- is enough. The array `args` of 64 pointers is a function of the index, since lines leave their
-- words behind in it. The files that import each other are parsed to a depth, since the source
-- follows a cycle of them without end. Numbers of 32 bits are their patterns.
-- `wait_for_file` turns on fuel, since only the clock ends it, and the queue is emptied in as many
-- turns as it holds commands and actions. The lines of ueventd.rc are read on as much fuel as the
-- file has bytes and one more. The answers of `read` and `write` in a loop are a list.
--
-- Not modelled: the walk over /sys at the cold boot, sockets, netlink and the console, which are
-- input and output; the commands that are one system call, such as `do_rm`; the SELinux commands and
-- bootchart.c, which are not compiled in. external/busybox is another project's.
pub mod Base
pub mod Boot
pub mod Builtin
pub mod Control
pub mod Device
pub mod Expand
pub mod Kernel
pub mod Keychord
pub mod Keyword
pub mod Logo
pub mod Number
pub mod Parser
pub mod Props
pub mod Queue
pub mod Service
pub mod Token
pub mod Util
