-- ===== src/Lib.antt =====
-- The TEE-IO validator of Intel, a C program under teeio-validator/ that runs compliance tests for
-- PCIe IDE, CXL IDE, TDISP and SPDM against a root port and a device.
--
-- A suite of tests is a list of configurations and of groups of cases. The runner in
-- teeio_validator/ide_test.c calls the functions of the test libraries through pointers; these
-- talk to the device over the DOE mailbox (library/spdmlib/pci_doe.c) and libspdm, program keys
-- into the registers of the root complex (library/pcie_ide_lib), and record what they find with
-- library/helperlib/teeio_common.c, from which the runner prints totals. (Paths in this comment
-- and in those of the files are from teeio-validator/, or start with it.)
--
-- Which file models what:
-- - Common: tests on numbers, lists by native numbers, bits of a byte, and `Outcome`, how a call
--   ends. `TEEIO_ASSERT` prints and spins for ever, so that a failed assertion never returns.
-- - Results: the result records of include/ide_test.h and the four functions of teeio_common.c;
--   the three global pointers are positions on the path into the tree of results.
-- - Runner: `do_run_test_suite`, `do_run_test_group`, `do_run_test_case`, the four functions on
--   configurations and `test_suite_cases_statics` of ide_test.c. A function of a test library is
--   a callback on an environment that stands for devices and sessions.
-- - Report: `tdisp_test_get_interface_report` of library/tdisp_test_lib. The exchange with the
--   device belongs to libspdm and is a parameter. The loop has fuel, one for each round;
--   more than a report has bytes is enough, and `none` is an unfinished loop.
-- - Doe: `device_doe_send_message` and `device_doe_receive_message` over a device behind its
--   configuration registers. The loops are bounded by the `delay` of the code.
--   Doe/Exchange: the exchange of a request and a response, and the choice of a mailbox by what
--   its discovery, which belongs to libspdm, reports.
-- - Keys: the byte orders of keys and IVs, from library/helperlib/utils.c.
-- - Kcbar: the key configuration registers of library/pcie_ide_lib/intel_rp_pcie.c as the dwords
--   of the mapped region, and in Kcbar/Slots `pcie_ide_alloc_slot_ids` of pcie_ide.c.
-- - Caps: the walks of capability lists in pcie_ide.c. They have fuel; more than the length of
--   the list is enough, and on a list that does not end no fuel is.
-- - Ecap: the IDE extended capability of a port in its configuration space (pcie_ide.c): the
--   register blocks and the operations on their registers, in Ecap/Search the searches for a free
--   block and stream and for a used stream identifier, in Ecap/Assoc the association registers.
--   The configuration space is a function from offsets to dwords. Kcbar/Switch is the switch of
--   key sets of the same file.
-- - Text: validation and conversion of numbers, lists of numbers, the checksum and the maximum of utils.c.
-- - Config: the lookups of library/helperlib/ide_ini_helper.c.
-- - Ini: the reading of an ini file (teeio_validator/ide_test_ini.c): characters, lines and trimming,
--   in Ini/Items the list of sections and entries and its lookups, and in Ini/Items/Refine the
--   profile that the lines of a file describe. The loop over the lines has fuel; more than the
--   file has bytes is enough, since a line has at least one. Ini/Numbers are the numbers of entries
--   and the test cases of a class.
-- - Device: the table of open devices and the texts that name a device, from
--   library/helperlib/pcie_helper.c. `sscanf` belongs to the C library and is a parameter.
-- - Keyp: the search of the KEYP table for the root port (`parse_keyp_table` of
--   library/pcie_ide_lib/intel_rp_pcie.c), over the bytes of the table. The mapping of the
--   registers asks the operating system and is a parameter. The loop over the units has fuel; more
--   than the table has bytes is enough where no unit has length 0.
-- - Tests: runs on small inputs.
--
-- Not modelled: log lines, the packet capture and other output; libspdm, which is a submodule;
-- mapping and opening of files; the test configuration that is built from
-- the ini file; the command line; the preparation
-- and cleanup of suites; the cases of the test libraries other than the interface report.
pub mod Common
pub mod Results
pub mod Runner
pub mod Report
pub mod Doe
pub mod Keys
pub mod Kcbar
pub mod Caps
pub mod Ecap
pub mod Text
pub mod Config
pub mod Ini
pub mod Device
pub mod Keyp
pub mod Tests
