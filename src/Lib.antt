-- ===== src/Lib.antt =====
-- The BACnet building controller example (profile B-BC, C++): a device that serves its objects'
-- properties to a BACnet stack, commands outputs through priority arrays, holds a file, polls a peer
-- controller's sensor, keeps the certificates of BACnet/SC and its connection to a hub, and carries
-- messages on the data link that the command line chooses.
--
-- Parts, with the code each models (paths from the repository's root):
--   Options            command_line.h: the settings
--   Bacnet             the numbers of main.cpp and common/CASBACnetStackExampleConstants.h
--   Priority           main.cpp, Commandable: CommandWrite, CommandRelinquish, ReadPrioritySlot
--   Device             main.cpp, the device's state. Device/Get and Device/Set hold the property
--                      callbacks (GetPropertyReal, SetPropertyReal, ...), Device/Port the data-link
--                      ports, Device/Ivory ReadFile and WriteFile, Device/Password and
--                      Device/Services the management services, Device/Restart main()'s restart
--   Peer               main.cpp, section 2e: Peer/Tag is ReadTag and its kin, Peer/Ack the two ACK
--                      handlers, Peer/Answer HandleReplyFromPeer, Peer/Poll HookIAm and PollPeer
--   Cert               sc/cert_store.cpp: Cert/Pem the PEM text, Cert/Store the staged copies,
--                      Cert/Validate, Cert/Commit, Cert/Keys and Cert/Bundle the operations on them
--   CertLayout         sc/cert_layout.cpp: the paths of the certificate files
--   Archive            sc/cari.cpp: paths, names and the tree of a certificate archive; Archive/Zip
--                      is ReadZip
--   ScNode             sc/ScNode.cpp: the certificate files, activation, the hub's state;
--                      ScNode/Hub is Service and the hub's messages, ScNode/Uuid the device's UUID
--   Transport          main.cpp: which broadcasts are copied, the send functions; Transport/Messages
--                      the message callbacks and the announcements
--   CommandLine        command_line.cpp: CommandLine/Parse is ParseCommandLine, CommandLine itself
--                      ParseNumber and the options' values
--   HubConnector       sc/ScHubConnector.cpp: HubConnector/Callback is HubProtocolCallback,
--                      HubConnector/Uri ParseHubUri, HubConnector/Api the functions ScNode.cpp calls
--   Floats, Base       the C++ number types and shared lists, maps and texts
--   Tests              concrete data, and each result applied to it
--
-- How the state corresponds: the globals of main.cpp are the record Device, g_peer is RemotePeer, and
-- Controller joins the two with the calls of BACnetStack_UpdateValue. A callback is a function from
-- the device to the device and an outcome; Reply and Verdict say true, false, and false with an error
-- code. Names are those of the source in this library's spelling: SetDiamondReliability is
-- set_diamond_reliability. The model is of the build with BACnet/SC.
--
-- Parameters stand for what is not in the repository: Cert.Host.Host for OpenSSL, the clock and the
-- outcomes of file operations; Floats for C++'s conversions, with the laws of IEEE 754 that are used;
-- Archive.Zip.Zlib for zlib; the argument `send` of the polling round for
-- BACnetStack_SendReadProperty; HubConnector.Websockets for libwebsockets, whose calls of the callback
-- are arguments too, as are the UDP sockets, the random device, what a stream leaves in its file, and
-- what the stack calls back; CommandLine.Platform for ULONG_MAX and the baud rates of the system. A
-- float is its bit pattern, a text the list of its octets, a certificate or key a number, as is a path
-- in Cert.
--
-- Memory: a read past the octets received is `fault` or `none`, a copy past Ivory's buffer `overrun`
-- of the buffer, and then `none` of the device.
-- Fuel: a walk over an APDU has one round for each octet and one more, and every tag takes an octet;
-- ScNode's loop over the status events has one round for each that waits and one more, with a stack
-- that calls nothing back; Read and Stat have as many rounds as the file's instance, since a fallback
-- names a lower one.
--
-- Not modelled: the time and date properties, the rest of main(), what is printed, the TLS flags of
-- the hub's context, PrepareCertificates and AddNetworkPort, writing the certificate archive and its
-- layout checks, the certificate tool, MS/TP and IPv6 discovery; common/ is a library that the example
-- series shares.
pub mod Base
pub mod Archive
pub mod Bacnet
pub mod Options
pub mod Priority
pub mod Cert
pub mod HubConnector
pub mod CertLayout
pub mod ScNode
pub mod Floats
pub mod CommandLine
pub mod Device
pub mod Peer
pub mod Transport
pub mod Tests
